-- ===== src/Storage/State.antt =====
-- `DuckDBStorage`: its fields, and access to the connection and to the embedder.
use agent_coderag.Prelude.{
  Bool, true, false, Option, none, some, ◌==◌, text_eq, if◌then◌else◌, not, ◌≡◌, refl, ◌∙◌, ap,
  arith, inl, inr,
}
use agent_coderag.Core.{
  Outcome-cases, >>-ok, ◌>>◌, storage_error, Outcome, ok, raised, Action, local_embedding_model_id,
}
use agent_coderag.Intelligence.Embedder.{Embedder}
use agent_coderag.Storage.Db.{Db, has_vectors, meta_get, meta_model_key}

pub data AccessMode : Type 0 where
  read_only read_write : AccessMode

unfoldable pub is_read_only : AccessMode → Bool
is_read_only read_only = true
is_read_only read_write = false

pub record Storage (F : Type 0) : Type 0 where
  pub db : Db F
  pub own_embedder : Option (Embedder F)
  pub mode : AccessMode
  pub embedding_model_dirty : Bool
  pub embeddings_bound : Bool
  pub pending_wipe : Bool
  pub closed : Bool

module _ {F : Type 0} where
  -- `__init__`
  unfoldable pub new_storage : Db F → Option (Embedder F) → AccessMode → Storage F
  new_storage db e mode = record {
    db = db;
    own_embedder = e;
    mode = mode;
    embedding_model_dirty = false;
    embeddings_bound = false;
    pending_wipe = false;
    closed = false;
  }

  -- The property `embedder`.
  unfoldable pub embedder : Action (Storage F) (Embedder F)
  embedder s = elim s.own_embedder [ none ↦ (raised (storage_error none), s) | some e ↦ (ok e, s) ]

  -- A write through the connection that may raise and then changes nothing.
  unfoldable pub write : (Db F → Outcome (Db F)) → Action (Storage F) (Unit {0})
  write f s = elim (f s.db) [ ok db ↦ (ok tt, record s { db = db }) | raised e ↦ (raised e, s) ]

  unfoldable pub refresh_dirty_from_meta : Storage F → Storage F
  refresh_dirty_from_meta s = elim s.own_embedder [
    | none ↦ record s { embedding_model_dirty = false }
    | some e ↦
        if s.pending_wipe
        then record s { embedding_model_dirty = false }
        else if not (has_vectors s.db)
        then record s { embedding_model_dirty = false }
        else elim (meta_get meta_model_key s.db) [
          | none ↦ record s { embedding_model_dirty = not (e.model_id == local_embedding_model_id) }
          | some m ↦ record s { embedding_model_dirty = not (m == e.model_id) }
        ]
  ]

  unfoldable pub finalize_rw_open : Bool → Storage F → Storage F
  finalize_rw_open wipe s = refresh_dirty_from_meta (record s { pending_wipe = wipe })

  pub write-ok :
      (f : Db F → Outcome (Db F)) (s : Storage F)
      → (write f s).0 ≡ ok tt
      → (d : Db F) × (f s.db ≡ ok d) × ((write f s).1 ≡ record s { db = d })
  unfolding write
  write-ok f s h = elim (Outcome-cases (f s.db)) [
    | inl (d, e) ↦ (d, e, ground arith)
    | inr (x, e) ↦ absurd (ground arith)
  ]

  -- A method that writes first and ends well.
  pub write->>-ok :
      {B : Type 0} (f : Db F → Outcome (Db F)) (k : Action (Storage F) B) (s : Storage F) (b : B)
      → ((write f >> k) s).0 ≡ ok b
      → (d : Db F) × (f s.db ≡ ok d) × ((write f >> k) s ≡ k (record s { db = d }))
  write->>-ok f k s b h =
      let (w, rest) = >>-ok (write f) k s b h in
      let (d, e, after) = write-ok f s w in (d, e, rest ∙ ap k after)

  -- A write keeps what its change keeps.
  pub write_keeps :
      {X : Type 0} (part : Db F → X) (f : Db F → Outcome (Db F)) (s : Storage F)
      → ((d : Db F) → f s.db ≡ ok d → part d ≡ part s.db)
      → part (write f s).1.db ≡ part s.db
  unfolding write
  write_keeps part f s keeps = elim (Outcome-cases (f s.db)) [
    | inl (d, e) ↦ rw (e, write) (keeps d e)
    | inr (x, e) ↦ rw (e, write) refl
  ]
