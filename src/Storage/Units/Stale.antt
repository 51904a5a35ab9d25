-- ===== src/Storage/Units/Stale.antt =====
-- What is left after the stale units of a file are deleted.
use agent_coderag.Prelude.{
  ap, sym, ◌∙◌, ◌≡◌, refl, true, false, not, List, [], ◌∷◌, Text, text_eq, ◌==◌, arith,
  if◌then◌else◌, contains, keep, keep-All, All, All-map_of, Bool, Bool-cases, Option-cases, none,
  inl, inr,
}
use mathlib.Core.Path.{subst}
use agent_coderag.Prelude.Dict.{Dict, lookup}
use agent_coderag.Core.{ok, >>-ok, Relation}
use agent_coderag.Storage.Db.{Row, Db, has_vectors, find_vector, erase_keys}
use agent_coderag.Storage.State.{Storage, write, write-ok}
use agent_coderag.Storage.Bind.{ensure_embeddings_bound}
use agent_coderag.Storage.Units.{is_stale, row_ids, delete_rows_where, delete_stale_units}

pub lookup-erase_keys :
    {V : Type 0} (p : Text → Bool) (j : Text) (d : Dict Text V)
    → lookup j (erase_keys p d) ≡ (if p j then none else lookup j d)
unfolding lookup erase_keys
lookup-erase_keys p j [] = ground arith
lookup-erase_keys p j ((k, v) ∷ d) = elim (Bool-cases (j == k)) [
  | inl e ↦ let same : p j ≡ p k = ap p (ground arith) in ground (arith, lookup-erase_keys p j d)
  | inr e ↦ ground (arith, lookup-erase_keys p j d)
]

-- A unit at the path has one of these ids.
abbrev pub IsFresh : Text → List Text → Row → Type 0
IsFresh path parsed r = (if r.path == path then contains parsed r.id else true) ≡ true

is_stale-IsFresh :
    (path : Text) (parsed : List Text) (r : Row)
    → not (is_stale path parsed r) ≡ true
    → IsFresh path parsed r
unfolding is_stale
is_stale-IsFresh path parsed r h = ground arith

not-true : (b : Bool) → not b ≡ true → b ≡ false
not-true true h = ground arith
not-true false h = refl

module _ {F : Type 0} where
  pub find_vector-delete_rows_where :
      (p : Row → Bool) (j : Text) (db : Db F)
      → find_vector j (delete_rows_where p db)
        ≡ (if contains (row_ids (keep p db.units)) j then none else find_vector j db)
  unfolding find_vector delete_rows_where
  find_vector-delete_rows_where p j db = elim (Option-cases db.embeddings) [
    | inl e ↦ ground arith
    | inr (t, e) ↦ ground (arith, lookup-erase_keys (contains (row_ids (keep p db.units))) j t.rows)
  ]

  pub delete_stale_units_bound :
      (path : Text) (parsed : List Text) (s : Storage F)
      → s.embeddings_bound ≡ true
      → has_vectors s.db ≡ true
      → delete_stale_units path parsed s
        ≡ (ok tt, record s { db = delete_rows_where (is_stale path parsed) s.db })
  unfolding delete_stale_units ensure_embeddings_bound write has_vectors delete_rows_where
  delete_stale_units_bound path parsed s bound table = rw (delete_stale_units, bound, table) refl

  -- On a storage whose embeddings are bound, the deletion after a file was indexed returns. The
  -- units that are left are those that were not stale, in their order; a unit at that path is left
  -- only if its id was just parsed. The vectors of the stale units are gone, and all others are as
  -- they were; no relation that is left starts at a stale unit.
  pub delete_stale_units-Kept :
      (path : Text) (parsed : List Text) (s : Storage F)
      → s.embeddings_bound ≡ true
      → has_vectors s.db ≡ true
      → let after = (delete_stale_units path parsed s).1.db in
        let stale = row_ids (keep (is_stale path parsed) s.db.units) in
        ((delete_stale_units path parsed s).0 ≡ ok tt)
        × (after.units ≡ keep (λ r. not (is_stale path parsed r)) s.db.units)
        × All (IsFresh path parsed) after.units
        × ((j : Text)
            → find_vector j after ≡ (if contains stale j then none else find_vector j s.db))
        × All (λ (r : Relation). contains stale r.from_id ≡ false) after.relations
  unfolding delete_stale_units ensure_embeddings_bound write has_vectors delete_rows_where
  delete_stale_units-Kept path parsed s bound table =
      let p = is_stale path parsed in
      rw (delete_stale_units_bound path parsed s bound table) (
        refl,
        refl,
        All-map_of _ (is_stale-IsFresh path parsed) (keep-All (λ r. not (p r)) s.db.units),
        λ j. find_vector-delete_rows_where p j s.db,
        All-map_of _ (λ r h. not-true _ h) (keep-All _ s.db.relations),
      )

  -- The same of any storage, where the call returns.
  pub delete_stale_units-IsFresh :
      (path : Text) (parsed : List Text) (s : Storage F)
      → (delete_stale_units path parsed s).0 ≡ ok tt
      → All (IsFresh path parsed) (delete_stale_units path parsed s).1.db.units
  unfolding delete_stale_units delete_rows_where
  delete_stale_units-IsFresh path parsed s h =
      let p = is_stale path parsed in
      let (bound, r) = >>-ok ensure_embeddings_bound _ s tt h in
      let s1 = (ensure_embeddings_bound s).1 in
      let (d, e, after) = write-ok _ s1 (sym (ap (λ x. x.0) r) ∙ h) in
      elim (Bool-cases (has_vectors s1.db)) [
        | inr missing ↦ absurd (ground arith)
        | inl there ↦
            let is : delete_rows_where p s1.db ≡ d = ground arith in
            rw (ap (λ x. x.1) r ∙ after) (
              subst (λ (d : Db F). All (IsFresh path parsed) d.units) is
                (All-map_of _ (is_stale-IsFresh path parsed)
                  (keep-All (λ r. not (p r)) s1.db.units)))
      ]
