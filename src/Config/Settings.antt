-- ===== src/Config/Settings.antt =====
-- `DistillerConfig`, its validators and `save`. `F` stands for the type of `temperature`.
use agent_coderag.Prelude.{
  ℕ, Bool, true, false, not, ◌&&◌, Option, none, some, Text, text_eq, if◌then◌else◌, ltb, is_empty,
}
use agent_coderag.Prelude.Strip.{strip}
use agent_coderag.Core.{
  intelligence_error, value_error, Outcome, ok, raised, truthy, llm_request_timeout,
  max_concurrent_tasks,
}

-- Other keys of the file are kept by pydantic and read by nothing.
pub record DistillerConfig (F : Type 0) : Type 0 where
  pub model : Option Text
  pub api_base : Option Text
  pub api_key : Option Text
  pub provider : Option Text
  pub temperature : F
  pub timeout : ℕ
  pub max_concurrency : ℕ
  pub embedding_base : Option Text
  pub embedding_key : Option Text
  pub embedding_model : Option Text
  pub embedding_provider : Option Text
  pub relative_paths : Bool

-- `_blank_string_to_none`
unfoldable pub blank_to_none : Option Text → Option Text
blank_to_none none = none
blank_to_none (some t) = if is_empty (strip t) then none else some (strip t)

abbrev pub is_set : Option Text → Bool
is_set none = false
is_set (some t) = true

abbrev pub xor : Bool → Bool → Bool
xor true b = not b
xor false b = b

-- What writing the file comes to: all is written, `open` raises, or `json.dump` raises on the file
-- that `open` has emptied. An exception is logged, and that is all.
pub data Writing : Type 0 where
  written : Writing
  unopened : Writing
  broken : Writing

module _ {F : Type 0} where
  unfoldable pub defaults : F → DistillerConfig F
  defaults zero_temperature = record {
    model = none;
    api_base = none;
    api_key = none;
    provider = none;
    temperature = zero_temperature;
    timeout = llm_request_timeout;
    max_concurrency = max_concurrent_tasks;
    embedding_base = none;
    embedding_key = none;
    embedding_model = none;
    embedding_provider = none;
    relative_paths = false;
  }

  unfoldable pub is_llm_configured : DistillerConfig F → Bool
  is_llm_configured c = truthy c.model && (truthy c.api_base && truthy c.provider)

  -- `model_validate(config.model_dump())`: pydantic runs the validators of every field.
  unfoldable pub model_validate : DistillerConfig F → Outcome (DistillerConfig F)
  model_validate c =
      if ltb 0 c.timeout && ltb 0 c.max_concurrency
      then ok (record c {
        model = blank_to_none c.model;
        api_base = blank_to_none c.api_base;
        api_key = blank_to_none c.api_key;
        provider = blank_to_none c.provider;
        embedding_base = blank_to_none c.embedding_base;
        embedding_key = blank_to_none c.embedding_key;
        embedding_model = blank_to_none c.embedding_model;
        embedding_provider = blank_to_none c.embedding_provider;
      })
      else raised value_error

  -- Both or neither of the two, in `save`, `apply_config_updates` and `create_embedder`.
  unfoldable pub half_remote : DistillerConfig F → Bool
  half_remote c = xor (is_set c.embedding_base) (is_set c.embedding_model)

  -- The file that a writing leaves: none where there is no file, or none that can be read.
  unfoldable pub file_after :
      Writing → DistillerConfig F → Option (DistillerConfig F) → Option (DistillerConfig F)
  file_after written c file = some c
  file_after unopened c file = file
  file_after broken c file = none

  unfoldable pub save :
      Writing
      → DistillerConfig F
      → Option (DistillerConfig F)
      → Outcome (Unit {0}) × Option (DistillerConfig F)
  save writing c file =
      if half_remote c
      then (raised intelligence_error, file)
      else (ok tt, file_after writing c file)

  -- `load`: a file that cannot be read as a valid configuration is logged and ignored.
  unfoldable pub load : F → Option (DistillerConfig F) → DistillerConfig F
  load zero_temperature none = defaults zero_temperature
  load zero_temperature (some c) = elim (model_validate c) [
    | ok d ↦ d
    | raised e ↦ defaults zero_temperature
  ]
