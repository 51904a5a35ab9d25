-- ===== src/Entry/Cli/Codes.antt =====
-- The exit codes of the commands, and what they print with `--json`.
use agent_coderag.Prelude.{
  ℕ, ◌≡◌, ◌↔◌, refl, ◌∙◌, ap, arith, Bool, true, Option, List, [], ◌∷◌, Text, text, text_eq, ◌==◌,
  inl, inr, ◌⊎◌, none, some, Bool-cases, false,
}
use mathlib.Core.Path.{subst}
use agent_coderag.Core.{Error, Outcome, ok, raised, Outcome-cases, Action, KnowledgeUnit}
use agent_coderag.Sync.Files.{SyncResult}
use agent_coderag.Discovery.Manager.{ApiReport}
use agent_coderag.Api.Client.{Client, Ports, sync, rebuild}
use agent_coderag.Entry.Cli.{
  Printed, json_line, json_indented, out_line, err_line, settings_lines, Ended, exited, exit_code,
  emit_error, emit_sync_outcome, emit_units, emit_report, run_client, checked_path, sync_cmd,
  search_cmd, api_cmd, rebuild_cmd,
}

unfoldable pub is_json : {F : Type 0} → Printed F → Bool
is_json (json_line p) = true
is_json (json_indented p) = true
is_json (out_line t) = false
is_json (err_line t) = false
is_json (settings_lines c) = false

-- One JSON value and nothing else.
abbrev pub IsOneJson : {F : Type 0} → List (Printed F) → Type 0
IsOneJson {F} ps = (p : Printed F) × (is_json p ≡ true) × (ps ≡ p ∷ [])

-- The call returned a result without errors.
abbrev pub Succeeds : Outcome SyncResult → Type 0
Succeeds o = (r : SyncResult) × (o ≡ ok r) × ((r.status == text "success") ≡ true)

-- The command was interrupted from the keyboard.
abbrev pub IsInterrupted : {F : Type 0} → Option (List (Printed F) × Client F) → Type 0
IsInterrupted {F} interrupt = (x : List (Printed F) × Client F) × (interrupt ≡ some x)

not_interrupted-fails :
    {F : Type 0} (x : Error) → IsInterrupted {F = F} none ⊎ Succeeds (raised x) → ⊥
not_interrupted-fails x (inl (y, p)) = ground arith
not_interrupted-fails x (inr (r, p, h)) = ground arith

not_interrupted-success :
    {F : Type 0} (a : SyncResult)
    → IsInterrupted {F = F} none ⊎ Succeeds (ok a)
    → (a.status == text "success") ≡ true
not_interrupted-success a (inl (y, p)) = absurd (ground arith)
not_interrupted-success a (inr (r, p, h)) =
    let q : a ≡ r = ground arith in ap (λ r. r.status == text "success") q ∙ h

emit_sync_outcome-exit :
    (F : Type 0) (r : SyncResult) (json : Bool) (label : Text)
    → (exit_code (emit_sync_outcome {F = F} r json label).1 ≡ 0)
      ↔ ((r.status == text "success") ≡ true)
unfolding emit_sync_outcome exit_code
emit_sync_outcome-exit F r json label = elim (Bool-cases (r.status == text "success")) [
  | inl e ↦ (λ h. e, λ h. ground (arith, e))
  | inr e ↦ (λ h. absurd (ground (arith, e)), λ h. absurd (ground (arith, e)))
]

module _ {F : Type 0} where
  emit_sync_outcome-one :
      (r : SyncResult) (label : Text) → IsOneJson (emit_sync_outcome {F = F} r true label).0
  unfolding emit_sync_outcome is_json
  emit_sync_outcome-one r label = elim (Bool-cases (r.status == text "success")) [
    | inl e ↦ rw e (_, refl, refl)
    | inr e ↦ rw e (_, refl, refl)
  ]

  emit_units-one :
      (query : Text) (units : List KnowledgeUnit)
      → IsOneJson (emit_units {F = F} true query units).0
  unfolding emit_units is_json
  emit_units-one query units = (_, refl, refl)

  emit_report-one : (r : ApiReport) → IsOneJson (emit_report {F = F} true r).0
  unfolding emit_report is_json
  emit_report-one r = (_, refl, refl)

module _ {F : Type 0} (message : Error → Text) where
  run_client-Succeeds :
      (json : Bool) (interrupt : Option (List (Printed F) × Client F))
      (m : Action (Client F) SyncResult) (label : Text) (c : Client F)
      → (exit_code
            (run_client message json interrupt
              (exited 1)
              m
              (λ r. emit_sync_outcome r json label)
              c).ended
          ≡ 0)
        ↔ (IsInterrupted interrupt ⊎ Succeeds (m c).0)
  unfolding run_client exit_code
  run_client-Succeeds json (some x) m label c = (λ h. inl (x, refl), λ h. refl)
  run_client-Succeeds json none m label c = elim (Outcome-cases (m c).0) [
    | inr (x, e) ↦
        rw (run_client, e) (λ h. absurd (ground arith), λ h. absurd (not_interrupted-fails x h))
    | inl (a, e) ↦
        rw (run_client, e)
          (
            λ h. inr (a, refl, (emit_sync_outcome-exit F a json label).0 h),
            λ h. (emit_sync_outcome-exit F a json label).1 (not_interrupted-success a h),
          )
  ]

  run_client-one :
      {A : Type 0} (on_error : Ended) (m : Action (Client F) A)
      (emit : A → List (Printed F) × Ended) (c : Client F)
      → ((a : A) → IsOneJson (emit a).0)
      → IsOneJson (run_client message true none on_error m emit c).printed
  unfolding run_client emit_error is_json
  run_client-one on_error m emit c one = elim (Outcome-cases (m c).0) [
    | inr (x, e) ↦ rw (run_client, e) (_, refl, refl)
    | inl (a, e) ↦ rw (run_client, e) (one a)
  ]

  module _ (ports : Ports F) where
    -- A sync exits with 0 exactly if its path is allowed and it was interrupted from the keyboard
    -- or returned a result with the status `success`: no exception and no failed file. A rebuild,
    -- which has no path, does so exactly if it was interrupted or returned such a result.
    pub sync_cmd-exit :
        (json : Bool) (interrupt : Option (List (Printed F) × Client F)) (path : Option Text)
        (all force : Bool) (c : Client F)
        → ((exit_code (sync_cmd message ports json interrupt path all force c).ended ≡ 0) ↔ (
            (p : Option Text) × (checked_path ports.machine.system path ≡ ok p)
            × (IsInterrupted interrupt ⊎ Succeeds (sync ports p all force c).0)))
          × ((exit_code (rebuild_cmd message ports json interrupt c).ended ≡ 0)
              ↔ (IsInterrupted interrupt ⊎ Succeeds (rebuild ports c).0))
    unfolding sync_cmd rebuild_cmd exit_code
    sync_cmd-exit json interrupt path all force c = (
      elim (Outcome-cases (checked_path ports.machine.system path)) [
        | inr (x, e) ↦
            rw (sync_cmd, e) (λ h. absurd (ground arith), λ (p, q, h). absurd (ground arith))
        | inl (p, e) ↦
            let run = run_client-Succeeds json interrupt (sync ports p all force) (text "Sync") c in
            rw (sync_cmd, e)
              (
                λ h. (p, refl, run.0 h),
                λ (p', q, h). run.1 (
                    subst (λ r. IsInterrupted interrupt ⊎ Succeeds (sync ports r all force c).0)
                      (let same : p' ≡ p = ground arith in same) h),
              )
      ],
      run_client-Succeeds json interrupt (rebuild ports) (text "Rebuild") c,
    )

    -- With `--json` and without an interruption, a search, an API report and a rebuild print one
    -- JSON value, whatever they return or raise; and so does a sync of a path that is allowed.
    pub json_printed-IsOneJson :
        (c : Client F) (query : Text) (limit : ℕ) (library : Text) (lang path p : Option Text)
        (all force : Bool)
        → checked_path ports.machine.system path ≡ ok p
        → IsOneJson (search_cmd message ports true none query limit c).printed
          × IsOneJson (api_cmd message ports true none library lang c).printed
          × IsOneJson (rebuild_cmd message ports true none c).printed
          × IsOneJson (sync_cmd message ports true none path all force c).printed
    unfolding search_cmd api_cmd rebuild_cmd sync_cmd
    json_printed-IsOneJson c query limit library lang path p all force h = (
      run_client-one _ _ _ c (emit_units-one query),
      run_client-one _ _ _ c emit_report-one,
      run_client-one _ _ _ c (λ r. emit_sync_outcome-one r _),
      rw (sync_cmd, h) (run_client-one _ _ _ c (λ r. emit_sync_outcome-one r _)),
    )
