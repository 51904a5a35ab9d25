-- ===== src/Index/Project/Ran.antt =====
-- How a worker goes through its files.
use agent_coderag.Prelude.{
  ◌≡◌, refl, Bool, List, [], ◌∷◌, ◌++◌, append_assoc, append-nil, sym, ◌∙◌, false, ap, Text, inl,
  inr,
}
use agent_coderag.Core.{Error, ok, raised, Outcome-cases}
use agent_coderag.Storage.State.{Storage}
use agent_coderag.Index.Units.{IndexStack}
use agent_coderag.Index.Project.{sync_path, worker, sync_project_one_worker, run_worker}

module _ {F : Type 0} (stack : IndexStack) (force : Bool) where
  -- One step for each path, in order, from the storage that the one before left. A failure is
  -- listed with its path and its error, and the next path is taken all the same.
  pub data Ran : List Text → Storage F → List (Text × Error) → Storage F → Type 0 where
    finished : {s : Storage F} → Ran [] s [] s
    indexed :
        {path : Text} {paths : List Text} {s s' : Storage F} {failures : List (Text × Error)}
        → (sync_path stack force path s).0 ≡ ok tt
        → Ran paths (sync_path stack force path s).1 failures s'
        → Ran (path ∷ paths) s failures s'
    failed :
        {path : Text} {paths : List Text} {s s' : Storage F} {failures : List (Text × Error)}
        {e : Error}
        → (sync_path stack force path s).0 ≡ raised e
        → Ran paths (sync_path stack force path s).1 failures s'
        → Ran (path ∷ paths) s ((path, e) ∷ failures) s'

  -- A worker that starts with some failures ends with these and those of its own run.
  worker-Ran :
      (paths : List Text) (before : List (Text × Error)) (s : Storage F)
      → (failures : List (Text × Error)) × ((worker stack force paths before s).0
          ≡ before ++ failures)
        × Ran paths s failures (worker stack force paths before s).1
  unfolding worker
  worker-Ran [] before s = ([], sym (append-nil before), finished)
  worker-Ran (path ∷ paths) before s = elim (Outcome-cases (sync_path stack force path s).0) [
    | inl (t, e) ↦
        let (failures, same, ran) = worker-Ran paths before (sync_path stack force path s).1 in
        rw (worker, e) (failures, same, indexed e ran)
    | inr (x, e) ↦
        let (failures, same, ran) =
          worker-Ran paths (before ++ ((path, x) ∷ [])) (sync_path stack force path s).1 in
        rw (worker, e)
          ((path, x) ∷ failures, same ∙ append_assoc before ((path, x) ∷ []) failures, failed e ran)
  ]

  -- On a storage whose vectors match the model, one worker takes every path in order, and the
  -- call returns the failures of that run, whatever any file raises.
  pub sync_project_one_worker-Ran :
      (paths : List Text) (index_all : Bool) (s : Storage F)
      → s.embedding_model_dirty ≡ false
      → let r = sync_project_one_worker stack paths force index_all s in
        (failures : List (Text × Error)) × (r.0 ≡ ok failures) × Ran paths s failures r.1
  unfolding sync_project_one_worker run_worker
  sync_project_one_worker-Ran [] index_all s clean =
      rw (sync_project_one_worker, clean) ([], refl, finished)
  sync_project_one_worker-Ran (path ∷ paths) index_all s clean =
      let (failures, same, ran) = worker-Ran (path ∷ paths) [] s in
      let run : sync_project_one_worker stack (path ∷ paths) force index_all s
          ≡ run_worker stack force (path ∷ paths) s =
        rw (sync_project_one_worker, clean) refl in
      rw run (failures, ap ok same, ran)
