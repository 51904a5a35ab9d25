-- ===== src/Paths/Resolve/Allowed.antt =====
-- Which paths `validate_path` lets through.
use agent_coderag.Prelude.{
  ◌≡◌, refl, true, Option, List, [], ◌∷◌, ◌++◌, arith, if◌then◌else◌, ◌↔◌, inl, inr, Bool-cases,
}
use agent_coderag.Core.{ok, raised, value_error}
use agent_coderag.Paths.Pure.{FilePath, is_relative_to}
use agent_coderag.Paths.Pure.Relative.{
  LiesUnder, is_relative_to-LiesUnder, LiesUnder-is_relative_to,
}
use agent_coderag.Paths.Resolve.{
  System, check_path, dev_caches, repo_dirs, is_under, root_or_cwd, validate_path,
}

-- One of the directories has the path at or below it.
pub data LiesUnderOne (p : FilePath) : List FilePath → Type 0 where
  here : {d : FilePath} {dirs : List FilePath} → LiesUnder d p → LiesUnderOne p (d ∷ dirs)
  there : {d : FilePath} {dirs : List FilePath} → LiesUnderOne p dirs → LiesUnderOne p (d ∷ dirs)

is_under-LiesUnderOne :
    (p : FilePath) (dirs : List FilePath) → is_under p dirs ≡ true → LiesUnderOne p dirs
unfolding is_under
is_under-LiesUnderOne p [] h = cc
is_under-LiesUnderOne p (d ∷ dirs) h = elim (Bool-cases (is_relative_to p d)) [
  | inl e ↦ here (is_relative_to-LiesUnder p d e)
  | inr e ↦ there (is_under-LiesUnderOne p dirs (ground arith))
]

LiesUnderOne-is_under :
    (p : FilePath) (dirs : List FilePath) → LiesUnderOne p dirs → is_under p dirs ≡ true
unfolding is_under
LiesUnderOne-is_under p [] l = elim l [ ]
LiesUnderOne-is_under p (d ∷ dirs) (here l) = rw (LiesUnder-is_relative_to p d l)
LiesUnderOne-is_under p (d ∷ dirs) (there l) = ground (arith, LiesUnderOne-is_under p dirs l)

is_under-append :
    (p : FilePath) (xs ys : List FilePath)
    → is_under p (xs ++ ys) ≡ (if is_under p xs then true else is_under p ys)
unfolding is_under
is_under-append p [] ys = refl
is_under-append p (x ∷ xs) ys = ground (arith, is_under-append p xs ys)

module _ (sys : System) where
  abbrev pub allowed_dirs : Option FilePath → List FilePath
  allowed_dirs root =
      root_or_cwd sys root
      ∷ sys.resolve sys.temp_dir
      ∷ sys.resolve sys.global_dir
      ∷ (dev_caches sys ++ repo_dirs sys)

  validate_path-eq :
      (path : FilePath) (root : Option FilePath)
      → validate_path sys path root ≡ (
          if is_under (check_path sys (sys.resolve path)) (allowed_dirs root)
          then ok (sys.resolve path)
          else raised value_error)
  unfolding validate_path is_under
  validate_path-eq path root =
      ground (
        arith,
        is_under-append (check_path sys (sys.resolve path)) (dev_caches sys) (repo_dirs sys),
      )

  -- A path passes exactly if it (or its parent, where it does not exist) lies at or below the
  -- root, the temporary or the global directory, a developer cache, or the repository around the
  -- working directory; what passes is the resolved path, and what does not is a ValueError.
  pub validate_path_iff :
      (path : FilePath) (root : Option FilePath) (r : FilePath)
      → (validate_path sys path root ≡ ok r) ↔ (
          (r ≡ sys.resolve path)
          × LiesUnderOne (check_path sys (sys.resolve path)) (allowed_dirs root))
  validate_path_iff path root r =
      let checked = check_path sys (sys.resolve path) in
      elim (Bool-cases (is_under checked (allowed_dirs root))) [
        | inl e ↦ (
          λ h. (ground (arith, validate_path-eq path root), is_under-LiesUnderOne checked _ e),
          λ (same, _). ground (arith, validate_path-eq path root),
        )
        | inr e ↦ (
          λ h. absurd (ground (arith, validate_path-eq path root)),
          λ (_, one).
              absurd (ground (arith, LiesUnderOne-is_under checked (allowed_dirs root) one)),
        )
      ]
