-- ===== src/Paths/Resolve/Upwards.antt =====
-- `find_directory_upwards` returns the nearest match, and looks at five directories at most.
use agent_coderag.Prelude.{
  ℕ, zero, suc, ◌<◌, ◌≡◌, true, false, some, Text, arith, Bool-cases, inl, inr,
}
use agent_coderag.Paths.Pure.{FilePath, join_name, parent}
use agent_coderag.Paths.Resolve.{System, search_upwards, find_directory_upwards}

abbrev pub ancestor : ℕ → FilePath → FilePath
ancestor zero p = p
ancestor (suc k) p = ancestor k (parent p)

-- Level k has the target, and the levels before it do not.
pub record IsNearest (sys : System) (levels : ℕ) (p : FilePath) (target : Text) (found : FilePath)
    : Type 0 where
  pub level : ℕ
  pub within : level < levels
  pub is_found : found ≡ join_name (ancestor level p) target
  pub is_there : sys.exists found ≡ true
  pub not_before : (k : ℕ) → k < level → sys.exists (join_name (ancestor k p) target) ≡ false

module _ (sys : System) where
  not_before_suc :
      (level : ℕ) (p : FilePath) (target : Text)
      → sys.exists (join_name p target) ≡ false
      → ((k : ℕ) → k < level → sys.exists (join_name (ancestor k (parent p)) target) ≡ false)
      → (k : ℕ) → k < suc level
      → sys.exists (join_name (ancestor k p) target) ≡ false
  not_before_suc level p target e below zero lt = e
  not_before_suc level p target e below (suc k) lt = below k (omega arith)

  search_upwards-IsNearest :
      (levels : ℕ) (p : FilePath) (target : Text) (found : FilePath)
      → search_upwards sys levels p target ≡ some found
      → IsNearest sys levels p target found
  unfolding search_upwards
  search_upwards-IsNearest zero p target found h = cc
  search_upwards-IsNearest (suc levels) p target found h =
      elim (Bool-cases (sys.exists (join_name p target))) [
        | inl e ↦ record {
          level = 0;
          within = omega arith;
          is_found = ground arith;
          is_there = ground arith;
          not_before = λ k lt. absurd (omega arith);
        }
        | inr e ↦
            let n = search_upwards-IsNearest levels (parent p) target found (ground arith) in
            record {
              level = suc n.level;
              within = omega (arith, n.within);
              is_found = n.is_found;
              is_there = n.is_there;
              not_before = not_before_suc n.level p target e n.not_before;
            }
      ]

  -- What is found lies in the nearest of the start and its four next ancestors that has it.
  pub find_directory_upwards-IsNearest :
      (start : FilePath) (target : Text) (found : FilePath)
      → find_directory_upwards sys start target ≡ some found
      → IsNearest sys 5 (sys.resolve start) target found
  unfolding find_directory_upwards
  find_directory_upwards-IsNearest start target found h =
      search_upwards-IsNearest 5 (sys.resolve start) target found h
