-- ===== src/Index/File/Fresh.antt =====
-- What the index holds for a file after it was indexed.
use agent_coderag.Storage.State.{Storage}
