-- ===== src/Migration/Run/Mark.antt =====
-- When a migration is marked as done.
use agent_coderag.Prelude.{◌≡◌, List, [], ◌∷◌, Text, All, Option}
use agent_coderag.Prelude.Dict.{Dict}
use agent_coderag.Core.{Error, Outcome, ok, KnowledgeUnit}
use agent_coderag.Storage.Db.{Db}
use agent_coderag.Storage.State.{Storage}
use agent_coderag.Storage.Rewrite.{commit_rewritten_path}
use agent_coderag.Paths.Pure.{FilePath}

-- Every file was parsed.
abbrev pub IsParsed : (FilePath → Outcome (List KnowledgeUnit)) → List FilePath → Type 0
IsParsed parse files =
    All (λ (path : FilePath). (units : List KnowledgeUnit) × (parse path ≡ ok units)) files

-- Each commit succeeds on the storage that the commits before it left.
unfoldable pub IsCommitted :
    {F : Type 0} → (Db F → List Text → Option Error) → List (Text × Text) → Storage F → Type 0
IsCommitted refuses [] s = Unit
IsCommitted refuses ((old, new) ∷ mapping) s =
    ((commit_rewritten_path refuses old new s).0 ≡ ok tt)
    × IsCommitted refuses mapping (commit_rewritten_path refuses old new s).1
