-- ===== src/Index/Units.antt =====
-- What sync decides about one unit, and the embedding of the units that need it.
pub mod Batches
use agent_coderag.Prelude.{
  ℕ, zero, suc, Bool, true, not, ◌&&◌, Option, none, some, List, [], ◌∷◌, ◌++◌, map, Text, text,
  ◌==◌, text_eq, nat_eq, option_eq, if◌then◌else◌, length, take, drop, zip,
}
use agent_coderag.Prelude.Dict.{lookup}
use agent_coderag.Core.{
  intelligence_error, storage_error, KnowledgeUnit, number, string, kind_value, truthy, Outcome,
  Action, pure, gets, lift, fail_if, for_each, ◌>>=◌, ◌>>◌, embedding_batch_size,
}
use agent_coderag.Intelligence.Embedder.{Embedder, aembed}
use agent_coderag.Storage.Db.{erase_keys}
use agent_coderag.Storage.State.{Storage, embedder}
use agent_coderag.Storage.Bind.{ensure_embeddings_bound}
use agent_coderag.Storage.Units.{upsert_unit, list_units, mark_embedding_model_synced}

-- `s or ''`
abbrev pub text_or_empty : Option Text → Text
text_or_empty none = []
text_or_empty (some s) = s

unfoldable pub unit_embedding_text : KnowledgeUnit → Text
unit_embedding_text u =
    if truthy u.summary
    then text_or_empty u.summary
    else kind_value u.kind
      ++ (b' '
          ∷ (u.name ++ (b' ' ∷ (text_or_empty u.signature ++ (b' ' ∷ text_or_empty u.docstring)))))

unfoldable pub should_distill_unit : Option KnowledgeUnit → KnowledgeUnit → Bool → Bool
should_distill_unit none u force = true
should_distill_unit (some old) u force =
    if force
    then true
    else if not (old.code_hash == u.code_hash)
    then true
    else not (truthy old.summary)

-- `existing.summary if existing else None`
unfoldable pub old_summary : Option KnowledgeUnit → Option Text
old_summary none = none
old_summary (some old) = old.summary

-- `_distill_unit_summary`: what a summary becomes; none of `summarize` is an exception.
unfoldable pub distilled_summary : Option KnowledgeUnit → Option Text → Option Text
distilled_summary old (some t) = some t
distilled_summary old none = old_summary old

-- `unit.metadata.pop("raw_code", "")`
unfoldable pub raw_code : KnowledgeUnit → Text
raw_code u = elim (lookup (text "raw_code") u.metadata) [
  | none ↦ []
  | some j ↦ elim j [ string t ↦ t | number n ↦ [] ]
]

unfoldable pub pop_raw_code : KnowledgeUnit → KnowledgeUnit
pop_raw_code u = record u { metadata = erase_keys (λ k. k == text "raw_code") u.metadata }

-- The ports of `IndexStack` other than the storage: `parse path stored_path`, and `summarize`,
-- which gives none where it raises. `relative` is the stored path of a file, if there is a root.
pub record IndexStack : Type 0 where
  pub parse : Text → Option Text → Outcome (List KnowledgeUnit)
  pub summarize : Text → Text → Option Text
  pub relative : Option (Text → Outcome Text)

-- The unit as it will be written: without its code, and with its summary.
unfoldable pub summarized : IndexStack → Option KnowledgeUnit → KnowledgeUnit → Bool → KnowledgeUnit
summarized stack old u force =
    if should_distill_unit old u force
    then record (pop_raw_code u) {
      summary = distilled_summary old (stack.summarize (raw_code u) u.name);
    }
    else record (pop_raw_code u) { summary = old_summary old }

unfoldable pub unit_needs_embedding : Bool → KnowledgeUnit → Option KnowledgeUnit → Bool
unit_needs_embedding has_vec u none = true
unit_needs_embedding has_vec u (some old) =
    not (old.code_hash == u.code_hash && (old.summary == u.summary && has_vec))

-- `chunk = units[start : start + EMBEDDING_BATCH_SIZE]` for each start; a round for each unit
-- is more than enough.
unfoldable pub batches {ℓ} : {A : Type ℓ} → ℕ → ℕ → List A → List (List A)
batches zero size xs = []
batches (suc rounds) size [] = []
batches (suc rounds) size (x ∷ xs) = take size (x ∷ xs) ∷ batches rounds size (drop size (x ∷ xs))

module _ {F : Type 0} where
  unfoldable pub upsert_all : List (KnowledgeUnit × List F) → Action (Storage F) (Unit {0})
  upsert_all pairs = for_each pairs (λ (u, v). upsert_unit u (some v))

  unfoldable pub embed_batch : Embedder F → List KnowledgeUnit → Action (Storage F) (Unit {0})
  embed_batch e chunk = do
    vectors ← lift (aembed e (map unit_embedding_text chunk))
    fail_if (not (length vectors == length chunk)) intelligence_error
    upsert_all (zip chunk vectors)

  unfoldable pub embed_and_upsert : List KnowledgeUnit → Action (Storage F) (Unit {0})
  embed_and_upsert [] = pure tt
  embed_and_upsert (u ∷ units) = do
    ensure_embeddings_bound
    e ← embedder
    for_each (batches (length (u ∷ units)) embedding_batch_size (u ∷ units)) (embed_batch e)

  unfoldable pub reembed_all_units : Action (Storage F) (Unit {0})
  reembed_all_units = do units ← list_units; embed_and_upsert units; mark_embedding_model_synced

  unfoldable pub reject_dirty_incremental : Action (Storage F) (Unit {0})
  reject_dirty_incremental = do
    dirty ← gets (λ s. s.embedding_model_dirty)
    fail_if dirty (storage_error none)
