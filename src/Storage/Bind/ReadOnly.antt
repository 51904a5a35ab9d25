-- ===== src/Storage/Bind/ReadOnly.antt =====
-- Binding the embeddings of a read-only storage writes nothing.
use agent_coderag.Prelude.{
  ◌≡◌, refl, ◌∙◌, ap, Bool, true, false, not, ◌&&◌, ℕ, Text, Option-cases, Bool-cases, inl, inr,
}
use agent_coderag.Core.{Error, Outcome-cases, Action, ◌>>=◌, ◌>>◌, fail_if, when, modify}
use agent_coderag.Storage.Db.{has_vectors, schema_vec_width}
use agent_coderag.Storage.State.{Storage, is_read_only, embedder}
use agent_coderag.Storage.Bind.{
  width_differs, bind_embedder_dimension, create_table_and_sync_meta, bind_embeddings,
  ensure_embeddings_bound,
}
use agent_coderag.Storage.Bind.Gives.{bind_embedder_dimension-Gives}

module _ {F : Type 0} where
  -- A call that leaves the tables and the mode of a read-only storage alone, returned or raised.
  abbrev pub IsQuiet : {A : Type 0} → Action (Storage F) A → Type 0
  IsQuiet m =
      (s : Storage F) → is_read_only s.mode ≡ true → ((m s).1.db ≡ s.db) × ((m s).1.mode ≡ s.mode)

  IsQuiet->>= :
      {A B : Type 0} (m : Action (Storage F) A) (k : A → Action (Storage F) B)
      → IsQuiet m
      → ((a : A) → IsQuiet (k a))
      → IsQuiet (m >>= k)
  IsQuiet->>= m k hm hk s ro =
      let (db, mode) = hm s ro in
      elim (Outcome-cases (m s).0) [
        | inr (x, h) ↦ rw h (db, mode)
        | inl (a, h) ↦
            let (db', mode') = hk a (m s).1 (ap is_read_only mode ∙ ro) in
            rw h (db' ∙ db, mode' ∙ mode)
      ]

  fail_if-IsQuiet : (b : Bool) (x : Error) → IsQuiet (fail_if b x)
  fail_if-IsQuiet true x s ro = (refl, refl)
  fail_if-IsQuiet false x s ro = (refl, refl)

  embedder-IsQuiet : IsQuiet embedder
  unfolding embedder
  embedder-IsQuiet s ro = elim (Option-cases s.own_embedder) [
    | inl h ↦ rw (embedder, h) (refl, refl)
    | inr (e, h) ↦ rw (embedder, h) (refl, refl)
  ]

  create_table_and_sync_meta-IsQuiet :
      (n : ℕ) (id : Text) → IsQuiet (create_table_and_sync_meta n id)
  unfolding create_table_and_sync_meta
  create_table_and_sync_meta-IsQuiet n id s ro =
      elim (Bool-cases (width_differs (schema_vec_width s.db) n)) [
        | inl h ↦ rw (create_table_and_sync_meta, h) (refl, refl)
        | inr h ↦ rw (create_table_and_sync_meta, h, ro) (refl, refl)
      ]

  bind_embeddings-IsQuiet : IsQuiet bind_embeddings
  unfolding bind_embeddings
  bind_embeddings-IsQuiet s ro = elim (Bool-cases (is_read_only s.mode && not (has_vectors s.db))) [
    | inl h ↦ rw (bind_embeddings, h) (refl, refl)
    | inr h ↦ rw (bind_embeddings, h) (made s ro)
  ]
    where
      bound : (dim : ℕ) → IsQuiet (embedder >>= λ e. create_table_and_sync_meta dim e.model_id)
      bound dim =
          IsQuiet->>= {B = Unit {0}} embedder (λ e. create_table_and_sync_meta dim e.model_id)
            embedder-IsQuiet (λ e. create_table_and_sync_meta-IsQuiet dim e.model_id)

      made : IsQuiet (
          embedder >>= λ e. bind_embedder_dimension e >>= λ dim.
          embedder >>= λ e'. create_table_and_sync_meta dim e'.model_id)
      made =
          IsQuiet->>= {B = Unit {0}} embedder
            (λ e. bind_embedder_dimension e >>= λ dim.
              embedder >>= λ e'. create_table_and_sync_meta dim e'.model_id)
            embedder-IsQuiet
            (λ e.
              IsQuiet->>= {B = Unit {0}} (bind_embedder_dimension e)
                (λ dim. embedder >>= λ e'. create_table_and_sync_meta dim e'.model_id)
                (λ s ro. let g = bind_embedder_dimension-Gives e s in (g.kept ro, g.mode)) bound)

  unless-IsQuiet :
      (b : Bool) (m : Action (Storage F) (Unit {0})) → IsQuiet m → IsQuiet (when (not b) m)
  unless-IsQuiet true m h s ro = (refl, refl)
  unless-IsQuiet false m h s ro = h s ro

  -- On a read-only storage, binding the embeddings changes no table, whether it returns or raises.
  pub ensure_embeddings_bound_read_only :
      (s : Storage F) → is_read_only s.mode ≡ true → (ensure_embeddings_bound s).1.db ≡ s.db
  unfolding ensure_embeddings_bound
  ensure_embeddings_bound_read_only s ro =
      let finish : Storage F → Storage F =
        λ s. record s { embeddings_bound = true; pending_wipe = false } in
      (unless-IsQuiet s.embeddings_bound (bind_embeddings >> modify finish)
        (IsQuiet->>= {B = Unit {0}} bind_embeddings (λ t. modify finish) bind_embeddings-IsQuiet
          (λ t s ro. (refl, refl)))
        s ro).0
