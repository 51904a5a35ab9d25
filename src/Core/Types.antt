-- ===== src/Core/Types.antt =====
-- core/models.py, core/constants.py, core/error_codes.py and core/exceptions.py.
use agent_coderag.Prelude.{ℕ, Bool, true, false, Option, none, some, List, [], ◌∷◌, Text, text}
use agent_coderag.Prelude.Dict.{Dict}

pub data UnitKind : Type 0 where
  module_kind class_kind function_kind method_kind : UnitKind

-- `kind.value`
unfoldable pub kind_value : UnitKind → Text
kind_value module_kind = text "module"
kind_value class_kind = text "class"
kind_value function_kind = text "function"
kind_value method_kind = text "method"

pub data RelationType : Type 0 where
  imports calls inherits defines : RelationType

pub record Relation : Type 0 where
  pub from_id : Text
  pub to_id : Text
  pub type : RelationType

-- The values that `metadata` holds.
pub data Json : Type 0 where
  number : ℕ → Json
  string : Text → Json

pub record KnowledgeUnit : Type 0 where
  pub id : Text
  pub kind : UnitKind
  pub name : Text
  pub path : Text
  pub signature : Option Text
  pub docstring : Option Text
  pub summary : Option Text
  pub code_hash : Text
  pub tags : List Text
  pub metadata : Dict Text Json
  pub relations : List Relation

pub data ErrorCode : Type 0 where
  storage_busy storage_corrupt embedding_mismatch embeddings_missing : ErrorCode

-- The exceptions that the modelled code raises or lets through: one constructor for each class
-- of `core/exceptions.py` in use, for the builtin ones, and `foreign` for those of other packages.
pub data Error : Type 0 where
  storage_error : Option ErrorCode → Error
  storage_busy_error : Error
  intelligence_error : Error
  discovery_error : Error
  value_error : Error
  runtime_error : Error
  index_error : Error
  grammar_not_found : Error
  foreign : Text → Error

-- `exc.code`
unfoldable pub error_code : Error → Option ErrorCode
error_code (storage_error c) = c
error_code storage_busy_error = some storage_busy
error_code _ = none

abbrev pub embedding_dim : ℕ
embedding_dim = 384

abbrev pub embedding_batch_size : ℕ
embedding_batch_size = 32

abbrev pub embedding_probe_text : Text
embedding_probe_text = text "probe"

abbrev pub local_embedding_model_id : Text
local_embedding_model_id = text "local:mini-lm"

abbrev pub max_concurrent_tasks : ℕ
max_concurrent_tasks = 4

abbrev pub llm_request_timeout : ℕ
llm_request_timeout = 300

-- An optional text counts as true in a test if it is there and not blank.
abbrev pub truthy : Option Text → Bool
truthy none = false
truthy (some t) = elim t [ [] ↦ false | _ ∷ _ ↦ true ]
