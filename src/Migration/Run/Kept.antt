-- ===== src/Migration/Run/Kept.antt =====
-- Which units stay through a migration.
use agent_coderag.Prelude.{
  ◌≡◌, ◌⊎◌, refl, sym, ◌∙◌, ap, arith, Bool, true, false, not, ◌&&◌, Option, Option-cases, List, [],
  ◌∷◌, map, Text, text_eq, ◌==◌, keep, contains, is_empty, All, Has, Has-map, Has-keep, Bool-cases,
  inl, inr,
}
use mathlib.Core.Path.{subst}
use agent_coderag.Prelude.Dict.{Dict, keys}
use agent_coderag.Core.{
  Error, Outcome, ok, raised, Outcome-cases, KnowledgeUnit, Keeps, Keeps->>=, Keeps->>, Keeps-pure,
  Keeps-if, Keeps-when, for_each,
}
use agent_coderag.Storage.Db.{Row, Db, map_row_to_unit, meta_set}
use agent_coderag.Storage.State.{Storage, write}
use agent_coderag.Storage.Units.{list_units, paths_migration_done, mark_paths_migrated}
use agent_coderag.Storage.Rewrite.{
  rewrite_row, rewrite_path_prefix, delete_path, delete_paths, transaction, commit_rewritten_path,
  delete_absolute_paths, commit_path_migration,
}
use agent_coderag.Paths.Pure.{FilePath, of_text}
use agent_coderag.Paths.Resolve.{System}
use agent_coderag.Migration.Claim.{Counter, groups_from, olds, claim_relative_paths}
use agent_coderag.Migration.Claim.Absolute.{
  IsAbsolute, groups_from-IsAbsolute, claim_relative_paths-All,
}
use agent_coderag.Migration.Run.{
  Parsed, parse_files, nothing_parsed, lower_suffix, orphans_of, commit_all, finish, migrate_groups,
  migrate_absolute_paths,
}

contains-keep :
    (p : Text → Bool) (xs : List Text) (x : Text) → contains (keep p xs) x ≡ (contains xs x && p x)
contains-keep p [] x = refl
contains-keep p (y ∷ ys) x = elim (Bool-cases (p y)) [
  | inl e ↦ ground (arith, e, contains-keep p ys x)
  | inr e ↦ elim (Bool-cases (x == y)) [
    | inl q ↦
        let same : x ≡ y = ground arith in
        let no : p x ≡ false = ap p same ∙ e in ground (arith, e, no, contains-keep p ys x)
    | inr q ↦ ground (arith, e, q, contains-keep p ys x)
  ]
]

-- A list of absolute paths has no relative one.
absent :
    (xs : List Text) (x : Text)
    → All IsAbsolute xs
    → (of_text x).absolute ≡ false
    → contains xs x ≡ false
absent [] x h r = refl
absent (y ∷ ys) x (a, h) r = elim (Bool-cases (x == y)) [
  | inl q ↦
      let same : x ≡ y = ground arith in
      absurd (let no = sym r ∙ ap (λ t. (of_text t).absolute) same ∙ a in ground arith)
  | inr q ↦ ground (arith, q, absent ys x h r)
]

module _ (parse : FilePath → Outcome (List KnowledgeUnit)) where
  parse_files-skipped :
      (files : List FilePath) (p : Parsed) (t : Text)
      → contains p.skipped t ≡ true
      → contains (parse_files parse files p).skipped t ≡ true
  unfolding parse_files
  parse_files-skipped [] p t h = h
  parse_files-skipped (f ∷ files) p t h = elim (Outcome-cases (parse f)) [
    | inl (us, e) ↦ rw (parse_files, e) (parse_files-skipped files _ t h)
    | inr (x, e) ↦ rw (parse_files, e) (parse_files-skipped files _ t (ground (arith, h)))
  ]

  -- The suffix of a file that the parser fails on is skipped.
  parse_files-raised :
      (files : List FilePath) (p : Parsed) (path : FilePath) (x : Error)
      → Has path files
      → parse path ≡ raised x
      → contains (parse_files parse files p).skipped (lower_suffix path) ≡ true
  unfolding parse_files
  parse_files-raised [] p path x h e = elim h [ ]
  parse_files-raised (f ∷ files) p path x (inl q) e =
      let raises : parse f ≡ raised x = ap parse (sym q) ∙ e in
      let suffix : lower_suffix path ≡ lower_suffix f = ap lower_suffix q in
      rw (parse_files, raises)
        (parse_files-skipped files _ (lower_suffix path) (ground (arith, suffix)))
  parse_files-raised (f ∷ files) p path x (inr h) e = parse_files-raised files _ path x h e

module _ {F : Type 0} (r : Row) where
  -- The row is stored.
  abbrev Stores : Storage F → Type 0
  Stores s = Has r s.db.units

  Keeps-write :
      (f : Db F → Outcome (Db F))
      → ((db d : Db F) → f db ≡ ok d → Has r db.units → Has r d.units)
      → Keeps Stores (write f)
  unfolding write
  Keeps-write f h = record {
    after = λ s i. elim (Outcome-cases (f s.db)) [
      | inl (d, e) ↦ rw (write, e) (h s.db d e i)
      | inr (x, e) ↦ rw (write, e) i
    ];
  }

  delete_paths-Has :
      (paths : List Text) (db : Db F)
      → contains paths r.path ≡ false
      → Has r db.units
      → Has r (delete_paths paths db).units
  unfolding delete_paths delete_path
  delete_paths-Has [] db free h = h
  delete_paths-Has (p ∷ paths) db free h =
      delete_paths-Has paths _ (ground arith)
        ((Has-keep (λ (q : Row). not (q.path == p)) r db.units).1 (ground arith, h))

  module _ (refuses : Db F → List Text → Option Error) where
    Keeps-transaction :
        (subject : List Text) (f : Db F → Db F)
        → ((db : Db F) → Has r db.units → Has r (f db).units)
        → Keeps Stores (write (transaction refuses subject f))
    unfolding transaction
    Keeps-transaction subject f h = Keeps-write (transaction refuses subject f) (λ db d e i.
        elim (Option-cases (refuses db subject)) [
          | inl k ↦
              subst (λ (x : Db F). Has r x.units) (let is : f db ≡ d = ground arith in is) (h db i)
          | inr (x, k) ↦ absurd (ground arith)
        ])

    Keeps-commit :
        (old new : Text)
        → (r.path == old) ≡ false
        → Keeps Stores (commit_rewritten_path refuses old new)
    unfolding commit_rewritten_path rewrite_path_prefix rewrite_row
    Keeps-commit old new free =
        Keeps-transaction (old ∷ new ∷ []) (rewrite_path_prefix old new)
          (λ db i. Has-map (rewrite_row old new) r db.units (ground (arith, free)) i)

    Keeps-commit_all :
        (mapping : List (Text × Text)) (failed : List Text)
        → contains (olds mapping) r.path ≡ false
        → Keeps Stores (commit_all refuses mapping failed)
    unfolding commit_all olds
    Keeps-commit_all [] failed free = record { after = λ s i. i }
    Keeps-commit_all ((old, new) ∷ mapping) failed free = record {
      after = λ s i.
          (Keeps-commit_all mapping _ (ground arith)).after _
            ((Keeps-commit old new (ground arith)).after s i);
    }

    Keeps-mark : Keeps Stores (mark_paths_migrated {F = F})
    unfolding mark_paths_migrated meta_set
    Keeps-mark = Keeps-write _ (λ db d e i. elim (Option-cases db.index_meta) [
      | inl k ↦ absurd (ground arith)
      | inr (m, k) ↦ let same : db.units ≡ d.units = ground arith in subst (λ us. Has r us) same i
    ])

    Keeps-finish :
        (again : Bool) (orphans : List Text)
        → contains orphans r.path ≡ false
        → Keeps Stores (finish refuses again orphans)
    unfolding finish delete_absolute_paths
    Keeps-finish again orphans free =
        Keeps->>
          (Keeps-when (not (is_empty orphans)) (
            Keeps-transaction orphans (delete_paths orphans)
              (λ db i. delete_paths-Has orphans db free i)))
          (Keeps->> (Keeps-when (not again) Keeps-mark) (Keeps-pure true))

    module _ (sys : System) (root : FilePath)
        (parse : FilePath → Outcome (List KnowledgeUnit)) where
      -- The path of the row is relative; or it was not claimed, and the parser failed on a file of
      -- its suffix.
      abbrev pub IsSpared : Dict Text Counter → List FilePath → Type 0
      IsSpared groups files =
          ((of_text r.path).absolute ≡ false)
          ⊎ ((contains
                  (olds (
                    claim_relative_paths sys root groups
                      (parse_files parse files nothing_parsed).files))
                  r.path
                ≡ false)
              × (path : FilePath) × Has path files
              × (x : Error) × (parse path ≡ raised x)
              × (lower_suffix path ≡ lower_suffix (of_text r.path)))

      Keeps-migrate_groups :
          (groups : Dict Text Counter) (files : List FilePath)
          → All IsAbsolute (keys groups)
          → IsSpared groups files
          → Keeps Stores (migrate_groups refuses sys root parse groups files)
      unfolding migrate_groups orphans_of
      Keeps-migrate_groups groups files absolute (inl relative) =
          let parsed = parse_files parse files nothing_parsed in
          let mapping = claim_relative_paths sys root groups parsed.files in
          let unclaimed =
            absent (olds mapping) r.path
              (claim_relative_paths-All IsAbsolute sys root groups parsed.files absolute)
              relative in
          Keeps->>= (Keeps-commit_all mapping [] unclaimed) (λ failed. Keeps-finish _ _ (
            contains-keep _ (keys groups) r.path
            ∙ (let none_such = absent (keys groups) r.path absolute relative in ground arith)))
      Keeps-migrate_groups groups files absolute (inr (unclaimed, path, has, x, e, suffix)) =
          let parsed = parse_files parse files nothing_parsed in
          let mapping = claim_relative_paths sys root groups parsed.files in
          let skipped : contains parsed.skipped (lower_suffix (of_text r.path)) ≡ true =
            ap (contains parsed.skipped) (sym suffix)
            ∙ parse_files-raised parse files nothing_parsed path x has e in
          Keeps->>= (Keeps-commit_all mapping [] unclaimed)
            (λ failed. Keeps-finish _ _ (contains-keep _ (keys groups) r.path ∙ ground arith))

      -- Whatever the migration returns or raises, a unit that is stored under a relative path stays
      -- as it is; and so does a unit whose path was not claimed, if the parser failed on a file of
      -- the same suffix.
      pub migrate_absolute_paths-Has :
          (files : List FilePath) (s : Storage F)
          → Has r s.db.units
          → IsSpared (groups_from (map map_row_to_unit s.db.units) []) files
          → Has r (migrate_absolute_paths refuses sys root parse files s).1.db.units
      unfolding migrate_absolute_paths paths_migration_done list_units commit_path_migration
          for_each mark_paths_migrated
      migrate_absolute_paths-Has files s stored spared =
          let units = map map_row_to_unit s.db.units in
          let groups = groups_from units [] in
          let run = Keeps-migrate_groups groups files (groups_from-IsAbsolute units [] tt) spared in
          (Keeps-if _ (Keeps-pure false)
              (Keeps-if (is_empty groups) (Keeps->> Keeps-mark (Keeps-pure false)) run)).after
            s stored
