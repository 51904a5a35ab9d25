-- ===== src/Entry/Cli.antt =====
-- code_rag/entry/cli.py and `main` of entry/args.py: what each command prints, how it ends, and
-- the exit code. argparse and `json.dumps` are not modelled: a command takes its parsed arguments,
-- and JSON is held as the value that is printed.
pub mod Codes
use agent_coderag.Prelude.{
  ℕ, Bool, true, false, not, ◌&&◌, Option, none, some, List, [], ◌∷◌, ◌++◌, map, Text, text,
  text_eq, ◌==◌, if◌then◌else◌, is_empty, length,
}
use agent_coderag.Prelude.Decimal.{decimal}
use agent_coderag.Core.{
  Error, error_code, ErrorCode, KnowledgeUnit, kind_value, truthy, Outcome, ok, raised, Action,
}
use agent_coderag.Config.Settings.{Writing, DistillerConfig, load, save}
use agent_coderag.Config.Update.{Updates, has_updates, apply_config_updates}
use agent_coderag.Paths.Pure.{of_text, as_posix}
use agent_coderag.Paths.Resolve.{System, validate_path}
use agent_coderag.Sync.Files.{SyncResult}
use agent_coderag.Discovery.Manager.{ApiReport}
use agent_coderag.Setup.{Download, Directory, run_setup}
use agent_coderag.Sync.Build.State.{Machine}
use agent_coderag.Api.Client.{Client, Ports, close_client, sync, search, api, rebuild}

-- What a JSON value says.
pub data Payload (F : Type 0) : Type 0 where
  indexed : Payload F
  failed_files : Text → List (Text × Error) → Payload F
  failed : Text → Option ErrorCode → Payload F
  found : List KnowledgeUnit → Payload F
  report : Text → Text → Payload F
  settings : DistillerConfig F → Payload F
  updated : Payload F

-- One `print`, on standard output or on standard error; `json_indented` is `indent=2`, on several
-- lines where the value is not empty.
pub data Printed (F : Type 0) : Type 0 where
  json_line : Payload F → Printed F
  json_indented : Payload F → Printed F
  out_line : Text → Printed F
  err_line : Text → Printed F
  settings_lines : DistillerConfig F → Printed F

-- A command returns, raises `SystemExit` or another exception, or is interrupted from the keyboard.
pub data Ended : Type 0 where
  returned : Ended
  exited : ℕ → Ended
  crashed : Error → Ended
  interrupted : Ended

-- A command that works with a client.
pub record Run (F : Type 0) : Type 0 where
  pub printed : List (Printed F)
  pub ended : Ended
  pub client : Client F

-- The exit code that `main` gives; it prints or logs what crashed.
unfoldable pub exit_code : Ended → ℕ
exit_code returned = 0
exit_code (exited n) = n
exit_code (crashed e) = 1
exit_code interrupted = 0

-- `if args.path: args.path = str(validate_path(args.path))`, before any client is made.
unfoldable pub checked_path : System → Option Text → Outcome (Option Text)
checked_path system none = ok none
checked_path system (some p) =
    if is_empty p then ok (some p) else elim (validate_path system (of_text p) none) [
      | ok valid ↦ ok (some (as_posix valid))
      | raised e ↦ raised e
    ]

module _ {F : Type 0} (message : Error → Text) where
  -- The handler of the commands: `_emit_json_error`, or a line on standard error.
  unfoldable pub emit_error : Bool → Error → Printed F
  emit_error json e =
      if json
      then json_line (failed (message e) (error_code e))
      else err_line (text "Error: " ++ message e)

module _ {F : Type 0} where
  unfoldable pub emit_sync_outcome : SyncResult → Bool → Text → List (Printed F) × Ended
  emit_sync_outcome r json label =
      if r.status == text "success"
      then ((if json then json_line indexed ∷ [] else []), returned)
      else (
        (if json
              then json_line
                  (failed_files (decimal (length r.errors) ++ text " file(s) failed") r.errors)
              else err_line (label ++ text " completed with errors."))
            ∷ [],
        exited 1,
      )

  unfoldable pub unit_lines : List KnowledgeUnit → List (Printed F)
  unit_lines [] = []
  unit_lines (u ∷ units) =
      let shown =
        text "["
        ++ (kind_value u.kind ++ (text "] " ++ (u.name ++ (text " (" ++ (u.path ++ text ")"))))) in
      let summary = elim u.summary as (λ _. List (Printed F)) [
        | none ↦ []
        | some t ↦ if is_empty t then [] else out_line (text "  Summary: " ++ t) ∷ []
      ] in
      out_line shown ∷ (summary ++ (out_line (text "--------------------") ∷ unit_lines units))

  unfoldable pub emit_units : Bool → Text → List KnowledgeUnit → List (Printed F) × Ended
  emit_units json query units =
      if json
      then (json_indented (found units) ∷ [], returned)
      else if is_empty units
      then (out_line (text "No results.") ∷ [], returned)
      else (
        out_line (text "Search results for: '" ++ (query ++ text "'\n")) ∷ unit_lines units,
        returned,
      )

  unfoldable pub emit_report : Bool → ApiReport → List (Printed F) × Ended
  emit_report json r =
      ((if json then json_line (report r.library r.report) else out_line r.report) ∷ [], returned)

  module _ (message : Error → Text) where
    -- `try: … except Exception as e: … finally: await rag.close()`; `SystemExit` is no
    -- `Exception`, and neither is what `asyncio.run` raises in the command at a Ctrl-C. `interrupt`
    -- is none where there is no Ctrl-C, and what was printed and the client when it came.
    unfoldable pub run_client :
        {A : Type 0}
        → Bool
        → Option (List (Printed F) × Client F)
        → Ended
        → Action (Client F) A
        → (A → List (Printed F) × Ended)
        → Client F
        → Run F
    run_client json (some (printed, now)) on_error m emit c = record {
      printed = printed;
      ended = interrupted;
      client = (close_client now).1;
    }
    run_client json none on_error m emit c =
        let r = elim (m c).0 as (λ _. List (Printed F) × Ended) [
          | ok a ↦ emit a
          | raised e ↦ (emit_error message json e ∷ [], on_error)
        ] in
        record { printed = r.0; ended = r.1; client = (close_client (m c).1).1 }

    module _ (ports : Ports F) (json : Bool)
        (interrupt : Option (List (Printed F) × Client F)) where
      unfoldable pub sync_cmd : Option Text → Bool → Bool → Client F → Run F
      sync_cmd path all force c = elim (checked_path ports.machine.system path) [
        | raised e ↦ record { printed = []; ended = crashed e; client = c }
        | ok p ↦
            run_client json interrupt (exited 1) (sync ports p all force)
              (λ r. emit_sync_outcome r json (text "Sync")) c
      ]

      unfoldable pub search_cmd : Text → ℕ → Client F → Run F
      search_cmd query limit =
          run_client json interrupt (exited 1) (search ports query limit) (emit_units json query)

      -- The handler of `api_cmd` does not raise.
      unfoldable pub api_cmd : Text → Option Text → Client F → Run F
      api_cmd library lang =
          run_client json interrupt returned (api ports library lang) (emit_report json)

      unfoldable pub rebuild_cmd : Client F → Run F
      rebuild_cmd =
          run_client json interrupt (exited 1) (rebuild ports)
            (λ r. emit_sync_outcome r json (text "Rebuild"))

  -- `config_cmd` on the file of the configuration.
  unfoldable pub config_cmd :
      F
      → Writing
      → Bool
      → Updates
      → Option (DistillerConfig F)
      → List (Printed F) × Ended × Option (DistillerConfig F)
  config_cmd zero_temperature writing json u file =
      let c = load zero_temperature file in
      if not (has_updates u)
      then ((if json then json_indented (settings c) else settings_lines c) ∷ [], returned, file)
      else elim (apply_config_updates c u) [
        | raised e ↦ ([], crashed e, file)
        | ok d ↦ elim (save writing d file).0 [
          | raised e ↦ ([], crashed e, (save writing d file).1)
          | ok _ ↦ (
            (if json then json_line updated else out_line (text "Config updated.")) ∷ [],
            returned,
            (save writing d file).1,
          )
        ]
      ]

  -- `_on_progress`
  unfoldable pub progress_line : (Error → Text) → Text × Text × Option Error → Printed F
  progress_line message (event, name, error) =
      if event == text "skipped"
      then out_line (text "  " ++ (name ++ text " already exists. Skipping."))
      else if event == text "downloading"
      then out_line (text "  Downloading " ++ (name ++ text "..."))
      else out_line (
          text "  Error downloading "
          ++ (name
              ++ (text ": "
                  ++ elim error as (λ _. Text) [ none ↦ text "None" | some e ↦ message e ])))

  -- An exception ends `setup_cmd` without a word of its own. The events are those of this run.
  unfoldable pub setup_cmd :
      (Error → Text)
      → Text
      → (Text → Download)
      → Bool
      → Bool
      → Directory
      → List (Printed F) × Ended × Directory
  setup_cmd message global_dir get json force d =
      let r = run_setup get force (record d { events = [] }) in
      let done = elim r.0 as (λ _. List (Printed F)) [
        | ok _ ↦ out_line (text "Setup complete.") ∷ []
        | raised e ↦ []
      ] in
      (
        (if json
            then []
            else out_line (text "Setting up agent-coderag in " ++ (global_dir ++ text "..."))
              ∷ (map (progress_line message) r.1.events ++ done)),
        returned,
        r.1,
      )
