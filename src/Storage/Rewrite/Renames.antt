-- ===== src/Storage/Rewrite/Renames.antt =====
-- What the migration of one path changes.
use agent_coderag.Prelude.{
  ◌≡◌, ◌≢◌, refl, ◌∙◌, ap, true, List, [], ◌∷◌, ◌++◌, Text, text_eq, nat_eq, ◌==◌, arith,
  drop-append_length, starts_with, Option, Option-cases, inl, inr, ◌⊎◌, Bool-cases, sym, Each,
  Each-map, none, some,
}
use agent_coderag.Prelude.Dict.{Dict}
use agent_coderag.Core.{Error, Relation, ok, raised}
use agent_coderag.Storage.Db.{Row, Db, Vectors}
use agent_coderag.Storage.State.{Storage, write}
use agent_coderag.Storage.Rewrite.{
  rewrite_id, rewrite_row, rewrite_relation, rewrite_vectors, rewrite_path_prefix, transaction,
  commit_rewritten_path,
}

starts_with-append : (s t : Text) → starts_with (s ++ t) s ≡ true
unfolding starts_with
starts_with-append [] t = refl
starts_with-append (c ∷ s) t = ground (arith, starts_with-append s t)

append_colon : (s q : Text) → s ++ (b':' ∷ q) ≡ (s ++ (b':' ∷ [])) ++ q
append_colon [] q = refl
append_colon (c ∷ s) q = ap (λ t. c ∷ t) (append_colon s q)

-- The id `path:name` of a unit of the old path becomes that of the same unit of the new path.
rewrite_id_moves : (old new q : Text) → rewrite_id old new (old ++ (b':' ∷ q)) ≡ new ++ (b':' ∷ q)
unfolding rewrite_id
rewrite_id_moves old new q =
    let starts : starts_with (old ++ (b':' ∷ q)) (old ++ (b':' ∷ [])) ≡ true =
      ap (λ t. starts_with t (old ++ (b':' ∷ []))) (append_colon old q)
      ∙ starts_with-append (old ++ (b':' ∷ [])) q in
    rw (starts) (ap (λ t. new ++ t) (drop-append_length old (b':' ∷ q)))

-- The old id is `old:q`, and the new one `new:q`; or the old id has no such form and stays.
abbrev pub IsRenamed : Text → Text → Text → Text → Type 0
IsRenamed old new id id' =
    ((q : Text) × (id ≡ old ++ (b':' ∷ q)) × (id' ≡ new ++ (b':' ∷ q)))
    ⊎ (((q : Text) → id ≢ old ++ (b':' ∷ q)) × (id' ≡ id))

-- What a row of the old path becomes: a row of the new path, with the new id and else the same.
abbrev pub IsMoved : Text → Text → Row → Row → Type 0
IsMoved old new r r' =
    ((r.path ≡ old) × IsRenamed old new r.id r'.id × (r' ≡ record r { path = new; id = r'.id }))
    ⊎ ((r.path ≢ old) × (r' ≡ r))

-- Both ends of a relation are renamed, and its type stays.
abbrev pub IsRelinked : Text → Text → Relation → Relation → Type 0
IsRelinked old new r r' =
    IsRenamed old new r.from_id r'.from_id × IsRenamed old new r.to_id r'.to_id × (r'.type ≡ r.type)

-- A vector stays under the id that its unit then has.
abbrev pub IsRekeyed : {V : Type 0} → Text → Text → Text × V → Text × V → Type 0
IsRekeyed old new (id, v) (id', v') = IsRenamed old new id id' × (v' ≡ v)

starts_with-split : (t s : Text) → starts_with t s ≡ true → (q : Text) × (t ≡ s ++ q)
unfolding starts_with
starts_with-split t [] h = (t, refl)
starts_with-split [] (c ∷ s) h = absurd (ground arith)
starts_with-split (d ∷ t) (c ∷ s) h = elim (Bool-cases (c == d)) [
  | inl e ↦
      let (q, p) = starts_with-split t s (ground arith) in
      (q, let same : d ≡ c = ground arith in ground (arith, p, same))
  | inr e ↦ absurd (ground arith)
]

rewrite_id-IsRenamed : (old new id : Text) → IsRenamed old new id (rewrite_id old new id)
unfolding rewrite_id
rewrite_id-IsRenamed old new id = elim (Bool-cases (starts_with id (old ++ (b':' ∷ [])))) [
  | inl e ↦
      let (q, p) = starts_with-split id (old ++ (b':' ∷ [])) e in
      let whole : id ≡ old ++ (b':' ∷ q) = p ∙ sym (append_colon old q) in
      inl (q, whole, ap (rewrite_id old new) whole ∙ rewrite_id_moves old new q)
  | inr e ↦ inr (
    λ q p. absurd (
        let starts : starts_with (old ++ (b':' ∷ q)) (old ++ (b':' ∷ [])) ≡ true =
          ap (λ t. starts_with t (old ++ (b':' ∷ []))) (append_colon old q)
          ∙ starts_with-append (old ++ (b':' ∷ [])) q in
        ground (arith, p, starts)),
    rw e refl,
  )
]

rewrite_row-IsMoved : (old new : Text) (r : Row) → IsMoved old new r (rewrite_row old new r)
unfolding rewrite_row
rewrite_row-IsMoved old new r = elim (Bool-cases (r.path == old)) [
  | inl e ↦ inl (ground arith, rw e (rewrite_id-IsRenamed old new r.id), rw e refl)
  | inr e ↦ inr (λ p. absurd (ground arith), rw e refl)
]

rewrite_relation-IsRelinked :
    (old new : Text) (r : Relation) → IsRelinked old new r (rewrite_relation old new r)
unfolding rewrite_relation
rewrite_relation-IsRelinked old new r =
    (rewrite_id-IsRenamed old new r.from_id, rewrite_id-IsRenamed old new r.to_id, refl)

rewrite_vectors-IsRekeyed :
    {V : Type 0} (old new : Text) (d : Dict Text V)
    → Each (IsRekeyed old new) d (rewrite_vectors old new d)
unfolding rewrite_vectors
rewrite_vectors-IsRekeyed old new [] = tt
rewrite_vectors-IsRekeyed old new ((id, v) ∷ d) =
    ((rewrite_id-IsRenamed old new id, refl), rewrite_vectors-IsRekeyed old new d)

module _ {F : Type 0} where
  -- The vectors before and after: no table and no table, or two of one width.
  unfoldable pub IsRekeyedTable : Text → Text → Option (Vectors F) → Option (Vectors F) → Type 0
  IsRekeyedTable old new none none = Unit
  IsRekeyedTable old new (some t) (some t') =
      (t' ≡ record t { rows = t'.rows }) × Each (IsRekeyed old new) t.rows t'.rows
  IsRekeyedTable old new none (some t') = ⊥
  IsRekeyedTable old new (some t) none = ⊥

  -- The rows, one by one, moved, the vectors and the relations renamed, and nothing else changed.
  pub record IsMovedDb (old new : Text) (before after : Db F) : Type 0 where
    pub units : Each (IsMoved old new) before.units after.units
    pub embeddings : IsRekeyedTable old new before.embeddings after.embeddings
    pub relations : Each (IsRelinked old new) before.relations after.relations
    pub rest : after ≡ record before {
      units = after.units;
      embeddings = after.embeddings;
      relations = after.relations;
    }

  rewrite_path_prefix-IsMovedDb :
      (old new : Text) (db : Db F) → IsMovedDb old new db (rewrite_path_prefix old new db)
  unfolding rewrite_path_prefix IsRekeyedTable
  rewrite_path_prefix-IsMovedDb old new db = record {
    units = Each-map _ (rewrite_row old new) (rewrite_row-IsMoved old new) db.units;
    embeddings = elim (Option-cases db.embeddings) [
      | inl e ↦ rw e tt
      | inr (t, e) ↦ rw e (refl, rewrite_vectors-IsRekeyed old new t.rows)
    ];
    relations =
        Each-map _ (rewrite_relation old new) (rewrite_relation-IsRelinked old new) db.relations;
    rest = refl;
  }

module _ {F : Type 0} (refuses : Db F → List Text → Option Error) where
  -- Either the engine refuses, and then nothing is changed; or the commit returns, and each row of
  -- the old path is in its place with the new path, each id `old:q` among the ids of those rows and
  -- in vectors and relations is `new:q`, and everything else is as it was.
  pub commit_rewritten_path-Moves :
      (old new : Text) (s : Storage F)
      → ((x : Error) × ((commit_rewritten_path refuses old new s) ≡ (raised x, s)))
        ⊎ (((commit_rewritten_path refuses old new s).0 ≡ ok tt)
            × IsMovedDb old new s.db (commit_rewritten_path refuses old new s).1.db)
  unfolding commit_rewritten_path write transaction
  commit_rewritten_path-Moves old new s = elim (Option-cases (refuses s.db (old ∷ new ∷ []))) [
    | inr (x, e) ↦ inl (x, rw (commit_rewritten_path, write, transaction, e) refl)
    | inl e ↦
        let run : commit_rewritten_path refuses old new s
            ≡ (ok tt, record s { db = rewrite_path_prefix old new s.db }) =
          rw (commit_rewritten_path, write, transaction, e) refl in
        inr (rw run (refl, rewrite_path_prefix-IsMovedDb old new s.db))
  ]
