-- ===== src/Setup.antt =====
-- code_rag/services/setup.py: the download of the files of the local model.
pub mod Whole
pub mod Present
use agent_coderag.Prelude.{
  Bool, true, false, not, ◌&&◌, Option, none, some, List, [], ◌∷◌, ◌++◌, Text, text, text_eq, ◌==◌,
  if◌then◌else◌, keep, contains,
}
use agent_coderag.Prelude.Dict.{Dict, lookup, insert}
use agent_coderag.Core.{
  Error, Outcome, ok, raised, Action, pure, gets, lift, modify, when, ◌>>=◌, ◌>>◌,
}

-- The keys of `MODEL_FILES`.
abbrev pub model_files : List Text
model_files = text "model.onnx" ∷ text "tokenizer.json" ∷ []

-- What a download comes to: an exception before the temporary file is made, one while it is
-- written, one of `os.replace` when all of it is there, or the content.
pub data Download : Type 0 where
  refused : Error → Download
  broken : Error → Download
  unplaced : Error → Download
  complete : Text → Download

-- The files of the directory of the model with their contents, the temporary files that are
-- there, and the events that were reported.
pub record Directory : Type 0 where
  pub files : Dict Text Text
  pub temporary : List Text
  pub events : List (Text × Text × Option Error)

-- `target_path.exists()`
abbrev pub is_there : Text → Directory → Bool
is_there name d = elim (lookup name d.files) as (λ _. Bool) [ none ↦ false | some _ ↦ true ]

-- `SetupResult`
pub record SetupResult : Type 0 where
  pub downloaded : List Text
  pub skipped : List Text

unfoldable pub report : Text → Text → Option Error → Action Directory (Unit {0})
report event name error =
    modify (λ d. record d { events = d.events ++ ((event, name, error) ∷ []) })

-- The handler of `_download_file`: the temporary file goes.
unfoldable pub drop_temporary : Text → Directory → Directory
drop_temporary name d = record d { temporary = keep (λ t. not (t == name)) d.temporary }

unfoldable pub make_temporary : Text → Directory → Directory
make_temporary name d = record d { temporary = name ∷ d.temporary }

unfoldable pub place : Text → Text → Directory → Directory
place name content d = record (drop_temporary name (make_temporary name d)) {
  files = insert name content d.files;
}

module _ (get : Text → Download) where
  unfoldable pub download_file : Text → Action Directory (Unit {0})
  download_file name d = elim (get name) [
    | refused e ↦ (raised e, drop_temporary name d)
    | broken e ↦ (raised e, drop_temporary name (make_temporary name d))
    | unplaced e ↦ (raised e, drop_temporary name (make_temporary name d))
    | complete content ↦ (ok tt, place name content d)
  ]

  -- `except Exception as exc`: the error is reported and raised again.
  unfoldable pub report_errors : Text → Action Directory (Unit {0}) → Action Directory (Unit {0})
  report_errors name m d = elim (m d).0 [
    | ok _ ↦ (ok tt, (m d).1)
    | raised e ↦ (raised e, (report (text "error") name (some e) (m d).1).1)
  ]

  unfoldable pub setup_file : Bool → Text → SetupResult → Action Directory SetupResult
  setup_file force name r = do
    there ← gets (is_there name)
    if there && not force
        then report (text "skipped") name none
          >> pure (record r { skipped = r.skipped ++ (name ∷ []) })
        else report (text "downloading") name none
          >> report_errors name (download_file name)
          >> pure (record r { downloaded = r.downloaded ++ (name ∷ []) })

  unfoldable pub setup_files : Bool → List Text → SetupResult → Action Directory SetupResult
  setup_files force [] r = pure r
  setup_files force (name ∷ names) r = setup_file force name r >>= setup_files force names

  unfoldable pub run_setup : Bool → Action Directory SetupResult
  run_setup force = setup_files force model_files (record { downloaded = []; skipped = [] })
