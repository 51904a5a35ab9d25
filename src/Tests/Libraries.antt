-- ===== src/Tests/Libraries.antt =====
-- The discovery of libraries.
use agent_coderag.Prelude.{true, some, [], ◌∷◌, text, text_eq, nat_eq}
use agent_coderag.Core.{ok}
use agent_coderag.Paths.Pure.{FilePath}
use agent_coderag.Discovery.Walk.{Explorer, no_walk, extract_all}
use agent_coderag.Discovery.Walk.Visited.{IsWalk, extract_all-IsWalk}
use agent_coderag.Tests.Data.{unit_at}
use agent_coderag.Tests.Machines.{path_of}

abbrev lib_file : FilePath
lib_file = path_of (text "lib.rs" ∷ [])

-- A file that leads to itself.
abbrev explorer : Explorer
explorer = record {
  exists = λ p. true;
  distill_file = λ p. ok (unit_at (text "lib.rs:f") (text "lib.rs") (text "h") ∷ []);
  is_listed = λ u. true;
  target = λ p u. some p;
}

extract_all_example : IsWalk explorer (extract_all explorer (lib_file ∷ lib_file ∷ []) no_walk)
extract_all_example =
    extract_all-IsWalk explorer (lib_file ∷ lib_file ∷ []) no_walk
      (record { once = tt; there = tt; public = tt })
