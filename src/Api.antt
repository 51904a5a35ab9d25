-- ===== src/Api.antt =====
-- code_rag/api/client.py: the public facade, with one stack for the process and one connection for
-- each operation.
pub mod Client
