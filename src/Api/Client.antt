-- ===== src/Api/Client.antt =====
-- `CodeRAG`: the process stack and the connection of each operation. An operation holds the lock,
-- so that no other one runs between its steps; what the engine, the disk and the packages do is a
-- parameter, `Ports`.
pub mod Offline
pub mod Rest
pub mod Stack
use agent_coderag.Prelude.{
  ℕ, ◌+◌, ◌-◌, Bool, true, false, not, ◌&&◌, ◌||◌, Option, none, some, List, [], ◌∷◌, map, Text,
  if◌then◌else◌,
}
use agent_coderag.Core.{
  Error, runtime_error, KnowledgeUnit, Outcome, ok, raised, Action, pure, gets, lift, fail_if, when,
  modify, ◌>>=◌, ◌>>◌, max_concurrent_tasks,
}
use agent_coderag.Intelligence.Embedder.{Embedder}
use agent_coderag.Config.Settings.{Writing, DistillerConfig, load}
use agent_coderag.Config.Update.{
  Updates, load_or_update_config, embedding_fields_requested, distill_fields_requested,
}
use agent_coderag.Intelligence.Distiller.{Completion, summarize}
use agent_coderag.Intelligence.Factory.{create_embedder}
use agent_coderag.Storage.Db.{Db, Row}
use agent_coderag.Storage.State.{is_read_only, AccessMode, read_only, read_write, Storage}
use agent_coderag.Storage.Connection.{open_db_connection}
use agent_coderag.Storage.Units.{search_units, close}
use agent_coderag.Paths.Pure.{FilePath}
use agent_coderag.Paths.Resolve.{format_unit_path}
use agent_coderag.Index.Units.{IndexStack}
use agent_coderag.Sync.Files.{SyncResult, result_from_failures}
use agent_coderag.Sync.Build.State.{Machine, World, on_storage}
use agent_coderag.Sync.Run.{Project, SyncOptions, run_sync, run_rebuild}
use agent_coderag.Discovery.Java.{Jars, extract_java_api, extract_java_api_alone}
use agent_coderag.Discovery.Manager.{
  Libraries, Provider, java, get_provider, language_or_python, ApiReport, run_api,
}

-- The object with its fields, the connections that are open, the database file and whether it is
-- there, the file of the
-- configuration, and what was executed, written and printed.
pub record Client (F : Type 0) : Type 0 where
  pub embedder : Option (Embedder F)
  pub parser : Bool
  pub distiller : Option (DistillerConfig F)
  pub storage : Option (Storage F)
  pub connections : ℕ
  pub db : Db F
  pub db_exists : Bool
  pub settings : Option (DistillerConfig F)
  pub executed : List (List Text × FilePath)
  pub scripts : List Text
  pub notices : List Text

-- What the facade was made with, and what it calls: the embedding service and the
-- local model, the parser, the LLM, the engine's connection, the ports of a sync, of a search and of the providers.
pub record Ports (F : Type 0) : Type 0 where
  pub root : FilePath
  pub allow_build_execution : Bool
  pub relative_paths : Bool
  pub zero_temperature : F
  pub writing : Writing
  pub respond : DistillerConfig F → List Text → Option (List (List F))
  pub normalize : List F → List F
  pub local_embedder : Outcome (Embedder F)
  pub connect : Db F → Outcome (Db F)
  pub schema_error : Option Error
  pub machine : Machine
  pub project : Project
  pub parse : Text → Option Text → Outcome (List KnowledgeUnit)
  pub complete : Completion F → Option Text
  pub refuses : Db F → List Text → Option Error
  pub rank : List F → List (Row × List F) → List (Row × List F)
  pub jars : Jars
  pub libraries : Libraries

abbrev pub is_some {ℓ} : {A : Type ℓ} → Option A → Bool
is_some none = false
is_some (some a) = true

module _ {F : Type 0} where
  -- `__init__`
  unfoldable pub new_client : Db F → Bool → Option (DistillerConfig F) → Client F
  new_client db db_exists settings = record {
    embedder = none;
    parser = false;
    distiller = none;
    storage = none;
    connections = 0;
    db = db;
    db_exists = db_exists;
    settings = settings;
    executed = [];
    scripts = [];
    notices = [];
  }

  -- The call of a storage operation in the world of the client.
  unfoldable pub world_of : Client F → Storage F → World F
  world_of c s = record {
    storage = s;
    executed = c.executed;
    scripts = c.scripts;
    notices = c.notices;
  }

  -- `_resolve_max_concurrency`
  unfoldable pub resolve_max_concurrency : Client F → ℕ
  resolve_max_concurrency c = elim c.distiller [
    | none ↦ max_concurrent_tasks
    | some d ↦ d.max_concurrency
  ]

  -- The embedder of the client is the object that the storage binds, where it has one.
  unfoldable pub shared : Option (Embedder F) → Option (Embedder F) → Option (Embedder F)
  shared none own = none
  shared (some e) none = some e
  shared (some e) (some own) = some own

  -- `await storage.close()` and `self._storage = None`.
  unfoldable pub release : World F → Client F → Client F
  release w c = record c {
    embedder = shared c.embedder w.storage.own_embedder;
    storage = none;
    connections = c.connections - 1;
    db = w.storage.db;
    executed = w.executed;
    scripts = w.scripts;
    notices = w.notices;
  }

  -- `try: body finally:` close, on a storage that was opened.
  unfoldable pub use_storage :
      {A : Type 0} → (Client F → Action (World F) A) → Storage F → Action (Client F) A
  use_storage body s c =
      let opened = record c { storage = some s; connections = c.connections + 1 } in
      let r = body opened (world_of opened s) in
      let closed = (on_storage close r.1).1 in (r.0, release closed opened)

  unfoldable pub close_client : Action (Client F) (Unit {0})
  close_client = modify (λ c. record c {
    embedder = none;
    parser = false;
    distiller = none;
    storage = none;
    connections = if is_some c.storage then c.connections - 1 else c.connections;
  })

  module _ (ports : Ports F) where
    unfoldable pub ensure_stack : Action (Client F) (Unit {0})
    ensure_stack c = elim c.embedder [
      | some e ↦ (ok tt, c)
      | none ↦
          let config = load ports.zero_temperature c.settings in
          elim (create_embedder ports.respond ports.normalize ports.local_embedder config) [
            | raised x ↦ (raised x, c)
            | ok e ↦ (ok tt, record c { embedder = some e; parser = true; distiller = some config })
          ]
    ]

    -- `open_db_connection` for this client.
    unfoldable pub open_storage :
        Option (Embedder F) → AccessMode → Bool → Client F → Outcome (Storage F)
    open_storage e mode wipe c =
        (open_db_connection (ports.connect c.db) c.db_exists e mode wipe ports.schema_error).0

    -- The engine makes the file where it connects for writing.
    unfoldable pub opening : AccessMode → Client F → Client F
    opening mode c = record c {
      db_exists = elim (ports.connect c.db) [
        | ok _ ↦ c.db_exists || not (is_read_only mode)
        | raised e ↦ c.db_exists
      ];
    }

    unfoldable pub with_open :
        {A : Type 0}
        → Option (Embedder F)
        → AccessMode
        → Bool
        → (Client F → Action (World F) A)
        → Action (Client F) A
    with_open e mode wipe body c = elim (open_storage e mode wipe c) [
      | raised x ↦ (raised x, opening mode c)
      | ok s ↦ use_storage body s (opening mode c)
    ]

    unfoldable pub with_storage :
        {A : Type 0} → AccessMode → Bool → (Client F → Action (World F) A) → Action (Client F) A
    with_storage mode wipe body = do
      ensure_stack
      e ← gets (λ c. c.embedder)
      fail_if (not (is_some e)) runtime_error
      with_open e mode wipe body

    unfoldable pub metadata_ro_connection :
        {A : Type 0} → (Client F → Action (World F) A) → Action (Client F) A
    metadata_ro_connection body = with_open none read_only false body

    -- `if self._parser is None or self._distiller is None: raise`
    unfoldable pub checked : {A : Type 0} → Action (World F) A → Client F → Action (World F) A
    checked body c = fail_if (not c.parser || not (is_some c.distiller)) runtime_error >> body

    -- `self._distiller` as an `IIntelligence`; an index stack is made where there is one.
    unfoldable pub distill : Option (DistillerConfig F) → Text → Text → Option Text
    distill none code unit_name = none
    distill (some c) code unit_name = summarize ports.complete c code unit_name

    -- `IndexStack(storage, self._parser, self._distiller)`; the root is set by the sync.
    unfoldable pub index_stack : Client F → IndexStack
    index_stack c = record { parse = ports.parse; summarize = distill c.distiller; relative = none }

    abbrev pub sync_options : Option Text → Bool → Bool → ℕ → SyncOptions
    sync_options path index_all force max_concurrency = record {
      root = ports.root;
      path = path;
      index_all = index_all;
      force = force;
      allow_build_execution = ports.allow_build_execution;
      max_concurrency = max_concurrency;
    }

    unfoldable pub sync : Option Text → Bool → Bool → Action (Client F) SyncResult
    sync path index_all force =
        if elim path [ none ↦ not index_all | some p ↦ false ]
        then pure (result_from_failures 0 [])
        else with_storage read_write false (λ c.
          checked
            (run_sync ports.machine ports.project (index_stack c) ports.refuses
              (sync_options path index_all force (resolve_max_concurrency c)))
            c)

    unfoldable pub rebuild : Action (Client F) SyncResult
    rebuild = with_storage read_write true (λ c.
        checked
          (run_rebuild ports.machine ports.project (index_stack c) ports.refuses ports.root
            ports.allow_build_execution (resolve_max_concurrency c))
          c)

    unfoldable pub shown : KnowledgeUnit → KnowledgeUnit
    shown u = record u {
      path = format_unit_path ports.machine.system u.path ports.root ports.relative_paths;
    }

    unfoldable pub search : Text → ℕ → Action (Client F) (List KnowledgeUnit)
    search query limit = do
      units ← with_storage read_only false (λ c. on_storage (search_units ports.rank query limit))
      pure (map shown units)

    unfoldable pub is_java : Option Provider → Bool
    is_java (some java) = true
    is_java _ = false

    -- A provider other than that of Java gets no storage, and reads none.
    unfoldable pub api : Text → Option Text → Action (Client F) ApiReport
    api library lang =
        let language = language_or_python lang in
        if is_java (get_provider language)
        then metadata_ro_connection (λ c.
          on_storage
            (run_api (extract_java_api ports.jars) ports.libraries library (some language)))
        else run_api extract_java_api_alone ports.libraries library (some language)

    unfoldable pub invalidate_stack_after_config : Bool → Bool → Action (Client F) (Unit {0})
    invalidate_stack_after_config embedding distill = modify (λ c.
        if embedding && is_some c.embedder
        then record c { embedder = none; parser = false; distiller = none }
        else if distill && is_some c.distiller
        then record c { distiller = some (load ports.zero_temperature c.settings) }
        else c)

    unfoldable pub config : Updates → Action (Client F) (DistillerConfig F)
    config u c =
        let r = load_or_update_config ports.zero_temperature ports.writing u c.settings in
        (lift r.0 >>= λ result.
        invalidate_stack_after_config (embedding_fields_requested u) (distill_fields_requested u)
        >> pure result)
          (record c { settings = r.1 })
