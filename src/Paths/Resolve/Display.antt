-- ===== src/Paths/Resolve/Display.antt =====
-- A stored path is shown as the file that was indexed.
use agent_coderag.Prelude.{
  ◌≡◌, sym, ◌∙◌, ap, true, false, List, ◌++◌, Text, arith, All, All-append_right, Option-cases, inl,
  inr,
}
use mathlib.Core.Path.{subst}
use agent_coderag.Core.{ok, Outcome-cases}
use agent_coderag.Paths.Pure.{FilePath, of_text, as_posix, joinpath, relative_to, strip_parts}
use agent_coderag.Paths.Pure.Relative.{append-strip_parts, IsPart, of_text-as_posix}
use agent_coderag.Paths.Resolve.{System, project_relative_posix, format_unit_path}

relative_to-ok :
    (p root rel : FilePath)
    → relative_to p root ≡ ok rel
    → (rest : List Text) × (rel ≡ record { absolute = false; parts = rest })
      × (p.parts ≡ root.parts ++ rest)
unfolding relative_to
relative_to-ok p root rel h = elim (Option-cases (strip_parts root.parts p.parts)) [
  | inl e ↦ absurd (ground arith)
  | inr (rest, e) ↦ (rest, ground arith, append-strip_parts root.parts p.parts rest e)
]

joinpath_below :
    (p root rel : FilePath) (rest : List Text)
    → p.absolute ≡ true
    → root.absolute ≡ true
    → rel ≡ record { absolute = false; parts = rest }
    → p.parts ≡ root.parts ++ rest
    → joinpath root rel ≡ p
unfolding joinpath
joinpath_below p root rel rest a b e f =
    rw e (λ i. record { absolute = (b ∙ sym a) i; parts = sym f i })

-- What `Path.resolve` gives: an absolute path without `.` and empty parts, the same for a path
-- below a directory as for one below what the directory resolves to, and itself when resolved.
pub record IsResolver (sys : System) : Type 0 where
  pub is_absolute : (p : FilePath) → (sys.resolve p).absolute ≡ true
  pub is_clean : (p : FilePath) → All IsPart (sys.resolve p).parts
  pub resolve_again : (p : FilePath) → sys.resolve (sys.resolve p) ≡ sys.resolve p
  pub resolve_below :
      (p q : FilePath)
      → q.absolute ≡ false
      → sys.resolve (joinpath p q) ≡ sys.resolve (joinpath (sys.resolve p) q)

module _ (sys : System) (R : IsResolver sys) where
  below_root :
      (path root rel : FilePath)
      → relative_to (sys.resolve path) (sys.resolve root) ≡ ok rel
      → (of_text (as_posix rel) ≡ rel)
        × (rel.absolute ≡ false)
        × (joinpath (sys.resolve root) rel ≡ sys.resolve path)
  below_root path root rel h =
      let (rest, is_rel, is_path) = relative_to-ok (sys.resolve path) (sys.resolve root) rel h in
      let clean =
        All-append_right IsPart (sys.resolve root).parts rest
          (subst (All IsPart) is_path (R.is_clean path)) in
      (
        rw is_rel (of_text-as_posix rest clean),
        rw is_rel,
        joinpath_below (sys.resolve path) (sys.resolve root) rel rest (R.is_absolute path)
            (R.is_absolute root) is_rel is_path,
      )

  -- The path that a file is stored under is shown, when absolute paths are wanted, as the
  -- resolved path of that file, and else as it is stored.
  pub format_unit_path-project_relative_posix :
      (path root : FilePath) (stored : Text)
      → project_relative_posix sys path root ≡ ok stored
      → (format_unit_path sys stored root false ≡ as_posix (sys.resolve path))
        × (format_unit_path sys stored root true ≡ stored)
  unfolding project_relative_posix format_unit_path
  format_unit_path-project_relative_posix path root stored h =
      elim (Outcome-cases (relative_to (sys.resolve path) (sys.resolve root))) [
        | inr (x, e) ↦ absurd (ground arith)
        | inl (rel, e) ↦
            let (same, below, joined) = below_root path root rel e in
            let stored_is : stored ≡ as_posix rel = ground arith in
            let again : sys.resolve (joinpath root rel) ≡ sys.resolve path =
              R.resolve_below root rel below ∙ ap sys.resolve joined ∙ R.resolve_again path in
            rw stored_is (ground (arith, same, below, ap (λ p. as_posix p) again))
      ]
