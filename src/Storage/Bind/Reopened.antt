-- ===== src/Storage/Bind/Reopened.antt =====
-- The width that is written to the metadata is the one that is read from it.
use agent_coderag.Prelude.{
  ℕ, ◌≤◌, ◌≡◌, ◌≢◌, refl, ◌∙◌, ap, true, false, not, ◌&&◌, [], ◌∷◌, Text, All, arith, if◌then◌else◌,
  is_empty, some, none, text_eq, ◌==◌, nat_eq, Option, Bool-cases, Option-cases, inl, inr,
}
use agent_coderag.Prelude.Decimal.{
  decimal, IsDigit, digits_value-decimal, decimal-IsDigit, decimal-ne-nil,
}
use agent_coderag.Prelude.Strip.Digits.{strip_digits}
use agent_coderag.Core.{ok, raised}
use agent_coderag.Intelligence.Embedder.{Embedder, bind_dimension}
use agent_coderag.Storage.Db.{
  Db, has_vectors, schema_vec_width, meta_get, meta_dim_key, meta_model_key,
}
use agent_coderag.Storage.State.{Storage, is_read_only}
use agent_coderag.Storage.Bind.{
  is_digits, mismatch, parse_positive_dim, width_differs, bind_to, bind_to_meta,
  bind_embedder_to_target, bind_embedder_dimension, dispatch_meta,
}

is_digits-All : (s : Text) → All IsDigit s → is_digits s ≡ true
unfolding is_digits
is_digits-All [] h = refl
is_digits-All (c ∷ s) (d, h) = ground (arith, is_digits-All s h)

is_empty-false : (s : Text) → s ≢ [] → is_empty s ≡ false
is_empty-false [] n = absurd (n refl)
is_empty-false (c ∷ s) n = refl

-- A positive width is read back from its decimal text.
pub parse_positive_dim-decimal : (n : ℕ) → 1 ≤ n → parse_positive_dim (decimal n) ≡ ok n
unfolding parse_positive_dim
parse_positive_dim-decimal n pos =
    let same = strip_digits (decimal n) (decimal-IsDigit n) in
    ground (
      arith,
      same,
      is_digits-All (decimal n) (decimal-IsDigit n),
      is_empty-false (decimal n) (decimal-ne-nil n),
      digits_value-decimal n,
    )

module _ {F : Type 0} where
  has_vectors_width : (db : Db F) (n : ℕ) → schema_vec_width db ≡ some n → has_vectors db ≡ true
  unfolding has_vectors schema_vec_width
  has_vectors_width db n h = elim (Option-cases db.embeddings) [
    | inl e ↦ absurd (ground arith)
    | inr (t, e) ↦ ground arith
  ]

  bind_dimension-none :
      (e : Embedder F) (n : ℕ)
      → 1 ≤ n
      → e.bound_dimension ≡ none
      → bind_dimension e n ≡ ok (record e { bound_dimension = some n })
  unfolding bind_dimension
  bind_dimension-none e n pos b = ground arith

  bind_dimension-some :
      (e : Embedder F) (n : ℕ) → 1 ≤ n → e.bound_dimension ≡ some n → bind_dimension e n ≡ ok e
  unfolding bind_dimension
  bind_dimension-some e n pos b = ground arith

  bind_to-ok :
      (e e' : Embedder F) (n : ℕ) (s : Storage F)
      → bind_dimension e n ≡ ok e'
      → bind_to e n s ≡ (ok n, record s { own_embedder = some e' })
  unfolding bind_to
  bind_to-ok e e' n s h = rw (bind_to, h) refl

  bind_to_meta_same :
      (e : Embedder F) (s : Storage F) (n : ℕ)
      → 1 ≤ n
      → bind_to_meta e (decimal n) e.model_id (some n) s ≡ bind_embedder_to_target e n s
  unfolding bind_to_meta width_differs
  bind_to_meta_same e s n pos =
      let agrees : (n == n) ≡ true = ground arith in
      let same : (e.model_id == e.model_id) ≡ true = ground arith in
      rw (bind_to_meta, parse_positive_dim-decimal n pos, width_differs, agrees, same) refl

  -- What becomes of an embedder that is bound to nothing, or to a width.
  abbrev pub Rebound : Embedder F → Storage F → ℕ → Option ℕ → Type 0
  Rebound e s n none =
      bind_embedder_dimension e s
      ≡ (ok n, record s { own_embedder = some (record e { bound_dimension = some n }) })
  Rebound e s n (some k) =
      bind_embedder_dimension e s
      ≡ (if k == n then (ok n, record s { own_embedder = some e }) else (raised mismatch, s))

  bind_to_meta-bound :
      (e : Embedder F) (s : Storage F) (n : ℕ) (o : Option ℕ)
      → 1 ≤ n
      → e.bound_dimension ≡ o
      → bind_embedder_dimension e s ≡ bind_embedder_to_target e n s
      → Rebound e s n o
  unfolding bind_embedder_to_target
  bind_to_meta-bound e s n none pos b r =
      r ∙ rw (bind_embedder_to_target, b) (bind_to-ok e _ n s (bind_dimension-none e n pos b))
  bind_to_meta-bound e s n (some k) pos b r = elim (Bool-cases (k == n)) [
    | inr other ↦ r ∙ rw (bind_embedder_to_target, b, other) refl
    | inl same ↦
        let target : bind_embedder_to_target e n s ≡ bind_to e n s = ground arith in
        r
        ∙ target
        ∙ bind_to-ok e e n s (bind_dimension-some e n pos (b ∙ ap some (ground arith)))
        ∙ rw same refl
  ]

  -- Opening an index again with the model that made it: an embedder without a width takes that of
  -- the index, one that has it already keeps it, and one of another width is refused, with the
  -- storage as it was.
  pub bind_embedder_dimension-Rebound :
      (e : Embedder F) (s : Storage F) (n : ℕ)
      → 1 ≤ n
      → s.pending_wipe ≡ false
      → schema_vec_width s.db ≡ some n
      → meta_get meta_dim_key s.db ≡ some (decimal n)
      → meta_get meta_model_key s.db ≡ some e.model_id
      → Rebound e s n e.bound_dimension
  unfolding bind_embedder_dimension
  bind_embedder_dimension-Rebound e s n pos kept width dim model =
      let table = has_vectors_width s.db n width in
      let old_index : (not s.pending_wipe && has_vectors s.db) ≡ true = ground arith in
      let dispatch : bind_embedder_dimension e s
          ≡ dispatch_meta e (is_read_only s.mode) (schema_vec_width s.db)
              (meta_get meta_dim_key s.db) (meta_get meta_model_key s.db) s =
        rw (old_index, bind_embedder_dimension) refl in
      let found : dispatch_meta e (is_read_only s.mode) (schema_vec_width s.db)
            (meta_get meta_dim_key s.db) (meta_get meta_model_key s.db) s
          ≡ bind_to_meta e (decimal n) e.model_id (some n) s =
        rw (width, dim, model) refl in
      bind_to_meta-bound e s n e.bound_dimension pos refl
        (dispatch ∙ found ∙ bind_to_meta_same e s n pos)
