-- ===== src/Tests/Index.antt =====
-- Indexing.
use agent_coderag.Prelude.{ℕ, ◌≡◌, refl, true, false, none, List, [], ◌∷◌, Text, text, arith, All}
use mathlib.Core.List.{flatten}
use agent_coderag.Core.{Error, ok, raised, value_error}
use agent_coderag.Index.Units.{IndexStack, batches}
use agent_coderag.Index.Units.Batches.{IsBatch, batches_lem}
use agent_coderag.Index.Project.{sync_project_one_worker}
use agent_coderag.Index.Project.Ran.{Ran, sync_project_one_worker-Ran}
use agent_coderag.Tests.Data.{unit_at, storage_on, full_db}

-- A parser that finds a unit that is already stored, and one that fails.
abbrev known_stack : IndexStack
known_stack = record {
  parse = λ path stored. ok (unit_at (text "a:f") (text "a") (text "h") ∷ []);
  summarize = λ code name. none;
  relative = none;
}

abbrev broken_stack : IndexStack
broken_stack = record {
  parse = λ path stored. raised value_error;
  summarize = λ code name. none;
  relative = none;
}

abbrev three : List ℕ
three = 7 ∷ 8 ∷ 9 ∷ []

batches_example : All (IsBatch 2) (batches 3 2 three) × (flatten (batches 3 2 three) ≡ three)
batches_example = batches_lem 3 2 three (omega arith) (omega arith)

sync_project_example :
    let s = storage_on full_db true in
    let paths = text "a" ∷ text "b" ∷ [] in
    let r = sync_project_one_worker broken_stack paths false true s in
    (failures : List (Text × Error)) × (r.0 ≡ ok failures)
    × Ran broken_stack false paths s failures r.1
sync_project_example =
    sync_project_one_worker-Ran broken_stack false (text "a" ∷ text "b" ∷ []) true
      (storage_on full_db true) refl
