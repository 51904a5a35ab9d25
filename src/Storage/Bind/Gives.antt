-- ===== src/Storage/Bind/Gives.antt =====
-- What `bind_embedder_dimension` leaves behind: an embedder of the width it returns.
use agent_coderag.Prelude.{
  ℕ, ◌≤◌, ◌≡◌, refl, ◌∙◌, Bool, true, false, not, ◌&&◌, Option, none, some, [], ◌∷◌, Text, arith,
  if◌then◌else◌, Option-cases, Bool-cases, inl, inr, ◌==◌, nat_eq, text_eq,
}
use agent_coderag.Core.{
  Error, Outcome, ok, raised, Action, ◌>>◌, Outcome-cases, fail_if, when, embedding_probe_text,
  local_embedding_model_id,
}
use agent_coderag.Intelligence.Embedder.{Embedder, dimension, bind_dimension, aembed, first_width}
use agent_coderag.Storage.Db.{has_vectors, meta_set}
use agent_coderag.Storage.Db.Meta.{meta_set_tables}
use agent_coderag.Storage.State.{write_keeps, Storage, is_read_only, write}
use agent_coderag.Storage.Bind.{
  get_or_else, parse_positive_dim, corrupt, bind_to, probe, probe_or_bind_dimension,
  bind_embedder_to_target, bind_to_meta, bind_inferred, dispatch_meta, bind_embedder_dimension,
  width_differs,
}

module _ {F : Type 0} where
  -- The storage holds an embedder of width n.
  abbrev pub HasWidth : ℕ → Storage F → Type 0
  HasWidth n s =
      (e : Embedder F) × (s.own_embedder ≡ some e) × (e.bound_dimension ≡ some n) × (1 ≤ n)

  -- The call leaves the mode alone, and if it returns n, the embedder has that width.
  pub record Gives (r : Outcome ℕ × Storage F) (s : Storage F) : Type 0 where
    pub width : (n : ℕ) → r.0 ≡ ok n → HasWidth n r.1
    pub mode : r.1.mode ≡ s.mode
    pub bound : r.1.embeddings_bound ≡ s.embeddings_bound
    pub kept : is_read_only s.mode ≡ true → r.1.db ≡ s.db
    pub tables : (r.1.db.units ≡ s.db.units) × (r.1.db.embeddings ≡ s.db.embeddings)

  Gives-raised : (x : Error) (s : Storage F) → Gives (raised x, s) s
  Gives-raised x s = record {
    width = λ m q. cc;
    mode = refl;
    bound = refl;
    kept = λ ro. refl;
    tables = (refl, refl);
  }

  Gives-if :
      (b : Bool) (m k : Action (Storage F) ℕ) (s : Storage F)
      → Gives (m s) s
      → Gives (k s) s
      → Gives ((if b then m else k) s) s
  Gives-if true m k s g h = g
  Gives-if false m k s g h = h

  bind_dimension-ok :
      (e e' : Embedder F) (n : ℕ)
      → bind_dimension e n ≡ ok e'
      → (e'.bound_dimension ≡ some n) × (1 ≤ n)
  unfolding bind_dimension
  bind_dimension-ok e e' n h = ground arith

  bind_to-Gives : (e : Embedder F) (n : ℕ) (s : Storage F) → Gives (bind_to e n s) s
  unfolding bind_to
  bind_to-Gives e n s = elim (Outcome-cases (bind_dimension e n)) [
    | inl (e', h) ↦
        rw (h, bind_to)
          (record {
            width = λ m q.
                let (b, p) = bind_dimension-ok e e' n h in (e', refl, ground arith, ground arith);
            mode = refl;
            bound = refl;
            kept = λ ro. refl;
            tables = (refl, refl);
          })
    | inr (x, h) ↦ rw (h, bind_to) (Gives-raised x s)
  ]

  probe-Gives : (e : Embedder F) (s : Storage F) → Gives (probe e s) s
  unfolding probe
  probe-Gives e s = elim (Outcome-cases (aembed e (embedding_probe_text ∷ []))) [
    | inr (x, h) ↦ rw (h, probe) (Gives-raised x s)
    | inl (rows, h) ↦ elim (Option-cases (first_width rows)) [
      | inl k ↦ rw (h, probe, k) (Gives-raised _ s)
      | inr (n, k) ↦ rw (h, probe, k) (bind_to-Gives e n s)
    ]
  ]

  probe_or_bind_dimension-Gives :
      (e : Embedder F) (s : Storage F) → Gives (probe_or_bind_dimension e s) s
  unfolding probe_or_bind_dimension
  probe_or_bind_dimension-Gives e s = elim (Outcome-cases (dimension e)) [
    | inr (x, h) ↦ rw (h, probe_or_bind_dimension) (probe-Gives e s)
    | inl (n, h) ↦ elim (Outcome-cases (bind_dimension e n)) [
      | inr (x, k) ↦ rw (h, probe_or_bind_dimension, k) (probe-Gives e s)
      | inl (e', k) ↦
          rw (h, probe_or_bind_dimension, k)
            (record {
              width = λ m q.
                  let (b, p) = bind_dimension-ok e e' n k in (e', refl, ground arith, ground arith);
              mode = refl;
              bound = refl;
              kept = λ ro. refl;
              tables = (refl, refl);
            })
    ]
  ]

  bind_embedder_to_target-Gives :
      (e : Embedder F) (n : ℕ) (s : Storage F) → Gives (bind_embedder_to_target e n s) s
  unfolding bind_embedder_to_target
  bind_embedder_to_target-Gives e n s = elim (Option-cases e.bound_dimension) [
    | inl h ↦ rw (h, bind_embedder_to_target) (bind_to-Gives e n s)
    | inr (m, h) ↦ elim (Bool-cases (m == n)) [
      | inl k ↦ rw (h, bind_embedder_to_target, k) (bind_to-Gives e n s)
      | inr k ↦ rw (h, bind_embedder_to_target, k) (Gives-raised _ s)
    ]
  ]

  bind_to_meta-Gives :
      (e : Embedder F) (d m : Text) (w : Option ℕ) (s : Storage F)
      → Gives (bind_to_meta e d m w s) s
  unfolding bind_to_meta
  bind_to_meta-Gives e d m w s = elim (Outcome-cases (parse_positive_dim d)) [
    | inr (x, h) ↦ rw (h, bind_to_meta) (Gives-raised x s)
    | inl (n, h) ↦
        rw (h, bind_to_meta)
          (checked (width_differs w n)
            (if m == e.model_id
              then bind_embedder_to_target e (get_or_else n w)
              else probe_or_bind_dimension e)
            (Gives-if (m == e.model_id) _ _ s (bind_embedder_to_target-Gives e _ s)
              (probe_or_bind_dimension-Gives e s)))
  ]
    where
      checked :
          (b : Bool) (k : Action (Storage F) ℕ)
          → Gives (k s) s
          → Gives ((fail_if b corrupt >> k) s) s
      checked true k g = Gives-raised corrupt s
      checked false k g = g

  -- A call that leaves the mode, the flag and the embedder alone, and the tables when it only reads.
  pub record IsSteady (m : Action (Storage F) (Unit {0})) (s : Storage F) : Type 0 where
    mode : (m s).1.mode ≡ s.mode
    bound : (m s).1.embeddings_bound ≡ s.embeddings_bound
    kept : is_read_only s.mode ≡ true → (m s).1.db ≡ s.db
    tables : ((m s).1.db.units ≡ s.db.units) × ((m s).1.db.embeddings ≡ s.db.embeddings)

  Gives-after :
      (m : Action (Storage F) (Unit {0})) (k : Action (Storage F) ℕ) (s : Storage F)
      → IsSteady m s
      → Gives (k (m s).1) (m s).1
      → Gives ((m >> k) s) s
  Gives-after m k s st g = elim (Outcome-cases (m s).0) [
    | inr (x, h) ↦ rw h (record {
      width = λ n q. cc;
      mode = st.mode;
      bound = st.bound;
      kept = st.kept;
      tables = st.tables;
    })
    | inl (t, h) ↦ rw h (record {
      width = g.width;
      mode = g.mode ∙ st.mode;
      bound = g.bound ∙ st.bound;
      kept = λ ro. g.kept (rw st.mode ro) ∙ st.kept ro;
      tables = (g.tables.0 ∙ st.tables.0, g.tables.1 ∙ st.tables.1);
    })
  ]

  pub set_unless-IsSteady :
      (ro : Bool) (k v : Text) (s : Storage F)
      → ro ≡ is_read_only s.mode
      → IsSteady (when (not ro) (write (meta_set k v))) s
  set_unless-IsSteady true k v s e = record {
    mode = refl;
    bound = refl;
    kept = λ ro. refl;
    tables = (refl, refl);
  }
  set_unless-IsSteady false k v s e =
      let same = meta_set_tables k v s.db in
      let units = write_keeps (λ d. d.units) (meta_set k v) s (λ d h. (same d h).0) in
      let vectors = write_keeps (λ d. d.embeddings) (meta_set k v) s (λ d h. (same d h).1) in
      elim (Outcome-cases (meta_set k v s.db)) [
        | inl (d, h) ↦
            unfold write in
            record {
              mode = ground arith;
              bound = ground arith;
              kept = λ ro. absurd (ground arith);
              tables = (units, vectors);
            }
        | inr (x, h) ↦
            unfold write in
            record {
              mode = ground arith;
              bound = ground arith;
              kept = λ ro. ground arith;
              tables = (units, vectors);
            }
      ]

  bind_inferred-Gives :
      (e : Embedder F) (ro : Bool) (w : Option ℕ) (s : Storage F)
      → ro ≡ is_read_only s.mode
      → Gives (bind_inferred e ro w s) s
  unfolding bind_inferred
  bind_inferred-Gives e ro w s same =
      let st = set_unless-IsSteady ro _ _ s same in
      Gives-after _ _ s st (
        Gives-after _ _ _ (set_unless-IsSteady ro _ _ _ (rw st.mode same)) (
          Gives-if (e.model_id == local_embedding_model_id) _ _ _
            (bind_embedder_to_target-Gives e _ _) (probe_or_bind_dimension-Gives e _)))

  dispatch_meta-Gives :
      (e : Embedder F) (ro : Bool) (w : Option ℕ) (d m : Option Text) (s : Storage F)
      → ro ≡ is_read_only s.mode
      → Gives (dispatch_meta e ro w d m s) s
  dispatch_meta-Gives e ro w (some d) (some m) s same = bind_to_meta-Gives e d m w s
  dispatch_meta-Gives e ro w (some d) none s same = bind_inferred-Gives e ro w s same
  dispatch_meta-Gives e ro w none m s same = bind_inferred-Gives e ro w s same

  pub bind_embedder_dimension-Gives :
      (e : Embedder F) (s : Storage F) → Gives (bind_embedder_dimension e s) s
  unfolding bind_embedder_dimension
  bind_embedder_dimension-Gives e s = elim (Bool-cases (not s.pending_wipe && has_vectors s.db)) [
    | inl h ↦ rw (h, bind_embedder_dimension) (dispatch_meta-Gives e _ _ _ _ s refl)
    | inr h ↦ rw (h, bind_embedder_dimension) (probe_or_bind_dimension-Gives e s)
  ]
