-- ===== src/Index/Project.antt =====
-- `sync_project`: the files of a project, by a worker that takes them from a queue.
pub mod Ran
use agent_coderag.Prelude.{
  ℕ, Bool, not, ◌&&◌, none, some, List, [], ◌∷◌, ◌++◌, Text, if◌then◌else◌, is_empty, ltb,
}
use agent_coderag.Core.{
  Error, storage_error, ok, raised, Action, pure, lift, gets, fail_if, when, ◌>>=◌, ◌>>◌,
}
use agent_coderag.Storage.State.{Storage}
use agent_coderag.Index.Units.{IndexStack, reembed_all_units}
use agent_coderag.Index.File.{sync_file}

module _ {F : Type 0} (stack : IndexStack) where
  -- The body of the `try` in `worker`.
  unfoldable pub sync_path : Bool → Text → Action (Storage F) (Unit {0})
  sync_path force path = elim stack.relative [
    | none ↦ sync_file stack path none force
    | some relative ↦ lift (relative path) >>= λ stored. sync_file stack path (some stored) force
  ]

  -- One worker on the whole queue: an exception ends only its own file.
  unfoldable pub worker :
      Bool → List Text → List (Text × Error) → Storage F → List (Text × Error) × Storage F
  worker force [] failures s = (failures, s)
  worker force (path ∷ queue) failures s =
      let r = sync_path force path s in
      worker force queue (elim r.0 [ ok _ ↦ failures | raised e ↦ failures ++ ((path, e) ∷ []) ])
        r.1

  unfoldable pub run_worker : Bool → List Text → Action (Storage F) (List (Text × Error))
  run_worker force paths s = let r = worker force paths [] s in (ok r.0, r.1)

  -- `sync_project` with `max_concurrency=1`, where one worker takes all paths.
  unfoldable pub sync_project_one_worker :
      List Text → Bool → Bool → Action (Storage F) (List (Text × Error))
  sync_project_one_worker paths force index_all = do
    dirty ← gets (λ s. s.embedding_model_dirty)
    fail_if (dirty && not index_all) (storage_error none)
    when dirty reembed_all_units
    if is_empty paths then pure [] else run_worker force paths
