-- ===== src/Storage/Bind/Agreement.antt =====
-- Once the embeddings are bound, the embedder, the table and the metadata have one width.
use agent_coderag.Prelude.{
  ℕ, ◌≡◌, refl, sym, ap, ◌∙◌, Bool, true, false, not, ◌&&◌, Option, some, Text, arith, Option-cases,
  Bool-cases, inl, inr, ◌==◌, nat_eq, text_eq,
}
use agent_coderag.Prelude.Decimal.{decimal}
use agent_coderag.Core.{ok, Action, ◌>>=◌, ◌>>◌, when, modify, >>-ok, >>=-ok}
use agent_coderag.Intelligence.Embedder.{Embedder}
use agent_coderag.Storage.Db.{
  Db, has_vectors, schema_vec_width, meta_get, meta_set, meta_dim_key, meta_model_key,
}
use agent_coderag.Storage.Db.Meta.{meta_get-meta_set, meta_set_tables}
use agent_coderag.Storage.State.{Storage, is_read_only, embedder, write, write-ok, write->>-ok}
use agent_coderag.Storage.Bind.{
  bind_embedder_dimension, create_vectors, create_table_and_sync_meta, bind_embeddings,
  width_differs, is_set, write_width, ensure_embeddings_bound,
}
use agent_coderag.Storage.Bind.Gives.{HasWidth, bind_embedder_dimension-Gives}

width_differs-false :
    (o : Option ℕ) (n : ℕ) → width_differs o n ≡ false → (w : ℕ) → o ≡ some w → w ≡ n
unfolding width_differs
width_differs-false o n h w e = ground arith

module _ {F : Type 0} where
  -- One width: the embedder's, the table's and, where the storage may write, the metadata's.
  pub record AgreesOn (n : ℕ) (s : Storage F) : Type 0 where
    pub width : HasWidth n s
    pub has_table : has_vectors s.db ≡ true
    pub table : (w : ℕ) → schema_vec_width s.db ≡ some w → w ≡ n
    pub metadata : is_read_only s.mode ≡ false → meta_get meta_dim_key s.db ≡ some (decimal n)

  -- The table of the vectors after `create_vectors`.
  record HasTable (n : ℕ) (db : Db F) : Type 0 where
    there : has_vectors db ≡ true
    width : (w : ℕ) → schema_vec_width db ≡ some w → w ≡ n

  create_vectors-HasTable :
      (n : ℕ) (db d : Db F)
      → ((w : ℕ) → schema_vec_width db ≡ some w → w ≡ n)
      → create_vectors n db ≡ ok d
      → HasTable n d
  unfolding create_vectors has_vectors schema_vec_width
  create_vectors-HasTable n db d h e = elim (Option-cases db.embeddings) [
    | inl none_there ↦ record { there = ground arith; width = λ w q. ground arith }
    | inr (t, there) ↦ record { there = ground arith; width = λ w q. h w (ground arith) }
  ]

  HasTable-same :
      (n : ℕ) (db d : Db F) → d.embeddings ≡ db.embeddings → HasTable n db → HasTable n d
  unfolding has_vectors schema_vec_width
  HasTable-same n db d e h = record { there = rw e h.there; width = rw e h.width }

  when_meta :
      (b : Bool) (k v j : Text) (s : Storage F)
      → (when b (write (meta_set k v)) s).0 ≡ ok tt
      → (j == k) ≡ false
      → (d : Db F) × ((when b (write (meta_set k v)) s).1 ≡ record s { db = d })
        × (meta_get j d ≡ meta_get j s.db)
        × (d.embeddings ≡ s.db.embeddings)
  when_meta false k v j s h ne = (s.db, refl, refl, refl)
  when_meta true k v j s h ne =
      let (d, e, f) = write-ok (meta_set k v) s h in
      (d, f, ground (arith, meta_get-meta_set k v j s.db d e), (meta_set_tables k v s.db d e).1)

  write_width-AgreesOn :
      (n : ℕ) (id : Text) (o : Option Text) (s : Storage F)
      → HasWidth n s
      → ((w : ℕ) → schema_vec_width s.db ≡ some w → w ≡ n)
      → (write_width n id o s).0 ≡ ok tt
      → AgreesOn n (write_width n id o s).1
  unfolding write_width
  write_width-AgreesOn n id o s h w e =
      let (d, made, r) = write->>-ok (create_vectors n) _ s tt e in
      let (d', set, r') =
        write->>-ok (meta_set meta_dim_key (decimal n)) _ (record s { db = d }) tt
          (sym (ap (λ x. x.0) r) ∙ e) in
      let (d'', after, same, tables) =
        when_meta (not (is_set o)) meta_model_key id meta_dim_key (record s { db = d' })
          (sym (ap (λ x. x.0) (r ∙ r')) ∙ e) (unfold text_eq in refl) in
      let table = HasTable-same n d' d'' tables (
        HasTable-same n d d' (meta_set_tables _ _ d d' set).1
          (create_vectors-HasTable n s.db d w made)) in
      rw (r, r', after)
        (record {
          width = h;
          has_table = table.there;
          table = table.width;
          metadata = λ ro.
              same
              ∙ meta_get-meta_set meta_dim_key _ meta_dim_key d d' set
              ∙ (unfold text_eq in refl);
        })

  -- What a returning `create_table_and_sync_meta` needs of its width.
  create_table_and_sync_meta-AgreesOn :
      (n : ℕ) (id : Text) (s : Storage F)
      → HasWidth n s
      → (is_read_only s.mode ≡ true → has_vectors s.db ≡ true)
      → (create_table_and_sync_meta n id s).0 ≡ ok tt
      → AgreesOn n (create_table_and_sync_meta n id s).1
  unfolding create_table_and_sync_meta
  create_table_and_sync_meta-AgreesOn n id s h there e =
      elim (Bool-cases (width_differs (schema_vec_width s.db) n)) [
        | inl bad ↦ absurd (ground arith)
        | inr fine ↦
            let same = width_differs-false (schema_vec_width s.db) n fine in
            elim (Bool-cases (is_read_only s.mode)) [
              | inl ro ↦
                  rw (create_table_and_sync_meta, fine, ro)
                    (record {
                      width = h;
                      has_table = there ro;
                      table = same;
                      metadata = λ rw_mode. absurd (ground arith);
                    })
              | inr rw_mode ↦
                  let o = meta_get meta_model_key s.db in
                  let writes : create_table_and_sync_meta n id s ≡ write_width n id o s =
                    rw (create_table_and_sync_meta, fine, rw_mode) refl in
                  rw writes (write_width-AgreesOn n id o s h same (sym (ap (λ x. x.0) writes) ∙ e))
            ]
      ]

  embedder-ok : (s : Storage F) (e : Embedder F) → (embedder s).0 ≡ ok e → (embedder s).1 ≡ s
  unfolding embedder
  embedder-ok s e h = elim (Option-cases s.own_embedder) [
    | inl own ↦ absurd (ground arith)
    | inr (x, own) ↦ ground arith
  ]

  bound_then_made :
      (e : Embedder F) (s : Storage F)
      → (is_read_only s.mode ≡ true → has_vectors s.db ≡ true)
      → let go = bind_embedder_dimension e >>= λ dim.
          embedder >>= λ e'. create_table_and_sync_meta dim e'.model_id in
        (go s).0 ≡ ok tt → (n : ℕ) × AgreesOn n (go s).1
  bound_then_made e s there h =
      let g = bind_embedder_dimension-Gives e s in
      let (n, gave, r) = >>=-ok (bind_embedder_dimension e) _ s tt h in
      let (e', own, r') =
        >>=-ok embedder _ (bind_embedder_dimension e s).1 tt (sym (ap (λ x. x.0) r) ∙ h) in
      let same = embedder-ok (bind_embedder_dimension e s).1 e' own in
      let all = r ∙ r' ∙ ap (create_table_and_sync_meta n e'.model_id) same in
      (
        n,
        rw all (
            create_table_and_sync_meta-AgreesOn n e'.model_id _ (g.width n gave)
              (λ ro.
                let was : is_read_only s.mode ≡ true = sym (ap is_read_only g.mode) ∙ ro in
                ap has_vectors (g.kept was) ∙ there was)
              (sym (ap (λ x. x.0) all) ∙ h)),
      )

  -- `bind_embeddings` after its guard.
  abbrev bind_made : Action (Storage F) (Unit {0})
  bind_made = embedder >>= λ e. bind_embedder_dimension e >>= λ dim.
      embedder >>= λ e'. create_table_and_sync_meta dim e'.model_id

  bind_made-AgreesOn :
      (s : Storage F)
      → (is_read_only s.mode ≡ true → has_vectors s.db ≡ true)
      → (bind_made s).0 ≡ ok tt
      → (n : ℕ) × AgreesOn n (bind_made s).1
  bind_made-AgreesOn s there e =
      let (emb, own, r) = >>=-ok embedder _ s tt e in
      let all =
        r
        ∙ ap
            (bind_embedder_dimension emb >>= λ dim.
              embedder >>= λ e'. create_table_and_sync_meta dim e'.model_id)
            (embedder-ok s emb own) in
      let (n, a) = bound_then_made emb s there (sym (ap (λ x. x.0) all) ∙ e) in (n, rw all a)

  bind_embeddings-AgreesOn :
      (s : Storage F) → (bind_embeddings s).0 ≡ ok tt → (n : ℕ) × AgreesOn n (bind_embeddings s).1
  unfolding bind_embeddings
  bind_embeddings-AgreesOn s e = elim (Bool-cases (is_read_only s.mode && not (has_vectors s.db))) [
    | inl bad ↦ absurd (ground arith)
    | inr fine ↦
        let all : bind_embeddings s ≡ bind_made s = rw (bind_embeddings, fine) refl in
        let (n, a) = bind_made-AgreesOn s (λ ro. ground arith) (sym (ap (λ x. x.0) all) ∙ e) in
        (n, rw all a)
  ]

  -- If `ensure_embeddings_bound` returns on a storage that is not yet bound, then the storage is
  -- bound, no wipe is pending, and one positive width n is the embedder's, the table's and, unless
  -- the storage is read-only, the metadata's.
  pub ensure_embeddings_bound-AgreesOn :
      (s : Storage F)
      → s.embeddings_bound ≡ false
      → (ensure_embeddings_bound s).0 ≡ ok tt
      → ((ensure_embeddings_bound s).1.embeddings_bound ≡ true)
        × ((ensure_embeddings_bound s).1.pending_wipe ≡ false)
        × ((n : ℕ) × AgreesOn n (ensure_embeddings_bound s).1)
  unfolding ensure_embeddings_bound
  ensure_embeddings_bound-AgreesOn s unbound e =
      let finish : Storage F → Storage F =
        λ s. record s { embeddings_bound = true; pending_wipe = false } in
      let start : ensure_embeddings_bound s ≡ (bind_embeddings >> modify finish) s =
        rw (ensure_embeddings_bound, unbound) refl in
      let (done, r) = >>-ok bind_embeddings (modify finish) s tt (sym (ap (λ x. x.0) start) ∙ e) in
      let (n, a) = bind_embeddings-AgreesOn s done in
      rw (start ∙ r) (
        refl,
        refl,
        (
          n,
          record {
            width = a.width;
            has_table = a.has_table;
            table = a.table;
            metadata = a.metadata;
          },
        ),
      )
