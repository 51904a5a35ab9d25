-- ===== src/Sync/Files/Chosen.antt =====
-- Which files are indexed.
use agent_coderag.Prelude.{
  ◌≡◌, refl, Bool, true, false, ◌&&◌, some, List, [], ◌∷◌, Text, All, arith, Bool-cases, inl, inr,
}
use agent_coderag.Core.{ok, Outcome-cases}
use agent_coderag.Paths.Pure.{FilePath, as_posix}
use agent_coderag.Paths.Resolve.{System, project_relative_posix}
use agent_coderag.Sync.Files.{has_language, match_target, should_index, indexable_under}

-- A file below the root, whose path below it no pattern ignores, in a language with a parser.
pub record IsChosen (sys : System) (ignored : Text → Bool) (root : FilePath) (listed : Text)
    : Type 0 where
  pub file : FilePath
  pub stored : Text
  pub is_listed : listed ≡ as_posix file
  pub is_below : project_relative_posix sys file root ≡ ok stored
  pub not_ignored : ignored stored ≡ false
  pub is_known : has_language file ≡ true

module _ (sys : System) (ignored : Text → Bool) where
  should_index-IsChosen :
      (p root : FilePath)
      → should_index sys ignored p (some root) ≡ true
      → IsChosen sys ignored root (as_posix p)
  unfolding should_index match_target
  should_index-IsChosen p root h = elim (Outcome-cases (project_relative_posix sys p root)) [
    | inr (x, e) ↦ absurd (ground arith)
    | inl (stored, e) ↦ record {
      file = p;
      stored = stored;
      is_listed = refl;
      is_below = e;
      not_ignored = ground arith;
      is_known = ground arith;
    }
  ]

  -- Every file that is listed for indexing lies below the root, is not ignored under the path that
  -- it will be stored under, and has a suffix of a known language.
  pub indexable_under-IsChosen :
      (walked : List (FilePath × Bool)) (root : FilePath)
      → All (IsChosen sys ignored root) (indexable_under sys ignored walked root)
  unfolding indexable_under
  indexable_under-IsChosen [] root = tt
  indexable_under-IsChosen ((p, is_file) ∷ walked) root =
      let rest = indexable_under-IsChosen walked root in
      elim (Bool-cases (is_file && should_index sys ignored p (some root))) [
        | inl e ↦ rw (e, indexable_under) (should_index-IsChosen p root (ground arith), rest)
        | inr e ↦ rw (e, indexable_under) rest
      ]
