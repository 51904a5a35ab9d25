-- ===== src/Config/Update.antt =====
-- services/config.py.
pub mod Valid
use agent_coderag.Prelude.{
  ℕ, Bool, true, false, not, ◌||◌, Option, none, some, Text, if◌then◌else◌, ltb,
}
use agent_coderag.Core.{intelligence_error, Outcome, ok, raised}
use agent_coderag.Config.Settings.{
  Writing, DistillerConfig, is_set, model_validate, half_remote, save, load,
}

-- The arguments of `config`.
pub record Updates : Type 0 where
  pub url : Option Text
  pub key : Option Text
  pub model : Option Text
  pub provider : Option Text
  pub timeout : Option ℕ
  pub max_concurrency : Option ℕ
  pub embedding_url : Option Text
  pub embedding_key : Option Text
  pub embedding_model : Option Text
  pub embedding_provider : Option Text
  pub clear_embedding : Bool

-- `_validate_positive_int`: what it refuses.
unfoldable pub not_positive : Option ℕ → Bool
not_positive none = false
not_positive (some n) = not (ltb 0 n)

-- `_set_non_none` for one attribute.
unfoldable pub set_text : Option Text → Option Text → Option Text
set_text old none = old
set_text old (some v) = some v

unfoldable pub set_number : ℕ → Option ℕ → ℕ
set_number old none = old
set_number old (some v) = v

unfoldable pub number_given : Option ℕ → Bool
number_given none = false
number_given (some n) = true

unfoldable pub embedding_fields_requested : Updates → Bool
embedding_fields_requested u =
    is_set u.embedding_url
    || (is_set u.embedding_key
        || (is_set u.embedding_model || (is_set u.embedding_provider || u.clear_embedding)))

unfoldable pub distill_fields_requested : Updates → Bool
distill_fields_requested u =
    is_set u.url
    || (is_set u.key
        || (is_set u.model
            || (is_set u.provider || (number_given u.timeout || number_given u.max_concurrency))))

unfoldable pub has_updates : Updates → Bool
has_updates u = embedding_fields_requested u || distill_fields_requested u

module _ {F : Type 0} where
  unfoldable pub set_distill : Updates → DistillerConfig F → DistillerConfig F
  set_distill u c = record c {
    api_base = set_text c.api_base u.url;
    api_key = set_text c.api_key u.key;
    model = set_text c.model u.model;
    provider = set_text c.provider u.provider;
    timeout = set_number c.timeout u.timeout;
    max_concurrency = set_number c.max_concurrency u.max_concurrency;
  }

  unfoldable pub clear : Bool → DistillerConfig F → DistillerConfig F
  clear false c = c
  clear true c = record c {
    embedding_base = none;
    embedding_key = none;
    embedding_model = none;
    embedding_provider = none;
  }

  unfoldable pub set_embedding : Updates → DistillerConfig F → DistillerConfig F
  set_embedding u c = record c {
    embedding_base = set_text c.embedding_base u.embedding_url;
    embedding_key = set_text c.embedding_key u.embedding_key;
    embedding_model = set_text c.embedding_model u.embedding_model;
    embedding_provider = set_text c.embedding_provider u.embedding_provider;
  }

  unfoldable pub check_pair : Outcome (DistillerConfig F) → Outcome (DistillerConfig F)
  check_pair (raised e) = raised e
  check_pair (ok c) = if half_remote c then raised intelligence_error else ok c

  unfoldable pub apply_config_updates : DistillerConfig F → Updates → Outcome (DistillerConfig F)
  apply_config_updates c u =
      if not_positive u.timeout
      then raised intelligence_error
      else if not_positive u.max_concurrency
      then raised intelligence_error
      else check_pair (model_validate (set_embedding u (clear u.clear_embedding (set_distill u c))))

  unfoldable pub save_updated :
      Writing
      → Outcome (DistillerConfig F)
      → Option (DistillerConfig F)
      → Outcome (DistillerConfig F) × Option (DistillerConfig F)
  save_updated writing (raised e) file = (raised e, file)
  save_updated writing (ok c) file =
      let r = save writing c file in (elim r.0 [ ok _ ↦ ok c | raised e ↦ raised e ], r.1)

  unfoldable pub load_or_update_config :
      F
      → Writing
      → Updates
      → Option (DistillerConfig F)
      → Outcome (DistillerConfig F) × Option (DistillerConfig F)
  load_or_update_config zero_temperature writing u file =
      let c = load zero_temperature file in
      if not (has_updates u)
      then (ok c, file)
      else save_updated writing (apply_config_updates c u) file
