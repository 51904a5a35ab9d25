-- ===== src/Api/Client/Offline.antt =====
-- A client without an LLM in its configuration.
use agent_coderag.Prelude.{
  ℕ, ◌≡◌, refl, ap, arith, ◌+◌, Bool, true, false, not, Option, none, some, inl, inr, Text,
}
use agent_coderag.Core.{Outcome-cases, Action, fail_if, runtime_error, ◌>>◌}
use agent_coderag.Config.Settings.{DistillerConfig, is_llm_configured, load}
use agent_coderag.Intelligence.Embedder.{Embedder}
use agent_coderag.Intelligence.Distiller.{Completion, summarize-offline}
use agent_coderag.Sync.Run.{run_sync, run_rebuild}
use agent_coderag.Storage.State.{AccessMode, read_write, Storage}
use agent_coderag.Index.Units.{IndexStack}
use agent_coderag.Sync.Build.State.{World}
use agent_coderag.Api.Client.{
  Client, Ports, is_some, ensure_stack, open_storage, use_storage, opening, with_open, with_storage,
  checked, distill, index_stack, sync_options, resolve_max_concurrency, sync, rebuild,
}

module _ {F : Type 0} where
  -- Whether a distiller calls the LLM.
  unfoldable pub calls_llm : Option (DistillerConfig F) → Bool
  calls_llm none = false
  calls_llm (some d) = is_llm_configured d

  -- The same ports, with another LLM.
  unfoldable pub with_llm : (Completion F → Option Text) → Ports F → Ports F
  with_llm complete ports = record ports { complete = complete }

module _ {F : Type 0} (ports : Ports F) (other : Completion F → Option Text) where
  distill-offline :
      (d : Option (DistillerConfig F))
      → calls_llm d ≡ false
      → distill ports d ≡ distill (with_llm other ports) d
  unfolding distill with_llm calls_llm
  distill-offline none h i code unit_name = none
  distill-offline (some d) h i code unit_name =
      summarize-offline ports.complete other d h i code unit_name

  index_stack-offline :
      (c : Client F)
      → calls_llm c.distiller ≡ false
      → index_stack ports c ≡ index_stack (with_llm other ports) c
  unfolding index_stack with_llm
  index_stack-offline c h i = record {
    parse = ports.parse;
    summarize = distill-offline c.distiller h i;
    relative = none;
  }

  ensure_stack-offline :
      (c : Client F)
      → is_llm_configured (load ports.zero_temperature c.settings) ≡ false
      → calls_llm c.distiller ≡ false
      → calls_llm (ensure_stack ports c).1.distiller ≡ false
  unfolding ensure_stack calls_llm
  ensure_stack-offline c settings own = ground arith

  use_storage-agree :
      {A : Type 0} (body other_body : Client F → Action (World F) A) (s : Storage F) (c : Client F)
      → ((c : Client F) → calls_llm c.distiller ≡ false → body c ≡ other_body c)
      → calls_llm c.distiller ≡ false
      → use_storage body s c ≡ use_storage other_body s c
  unfolding use_storage
  use_storage-agree body other_body s c agree h =
      rw (agree (record c { storage = some s; connections = c.connections + 1 }) h) refl

  with_open-agree :
      {A : Type 0} (e : Option (Embedder F)) (mode : AccessMode) (wipe : Bool)
      (body other_body : Client F → Action (World F) A) (c : Client F)
      → ((c : Client F) → calls_llm c.distiller ≡ false → body c ≡ other_body c)
      → calls_llm c.distiller ≡ false
      → with_open ports e mode wipe body c ≡ with_open ports e mode wipe other_body c
  unfolding with_open opening
  with_open-agree e mode wipe body other_body c agree h =
      elim (Outcome-cases (open_storage ports e mode wipe c)) [
        | inr (x, k) ↦ rw (with_open, k) refl
        | inl (s, k) ↦
            rw (with_open, k) (use_storage-agree body other_body s (opening ports mode c) agree h)
      ]

  ensured-agree :
      {A : Type 0} (e : Option (Embedder F)) (mode : AccessMode) (wipe : Bool)
      (body other_body : Client F → Action (World F) A) (c : Client F)
      → ((c : Client F) → calls_llm c.distiller ≡ false → body c ≡ other_body c)
      → calls_llm c.distiller ≡ false
      → (fail_if (not (is_some e)) runtime_error >> with_open ports e mode wipe body) c
        ≡ (fail_if (not (is_some e)) runtime_error >> with_open ports e mode wipe other_body) c
  ensured-agree none mode wipe body other_body c agree h = refl
  ensured-agree (some e) mode wipe body other_body c agree h =
      with_open-agree (some e) mode wipe body other_body c agree h

  with_storage-agree :
      {A : Type 0} (mode : AccessMode) (wipe : Bool)
      (body other_body : Client F → Action (World F) A) (c : Client F)
      → ((c : Client F) → calls_llm c.distiller ≡ false → body c ≡ other_body c)
      → is_llm_configured (load ports.zero_temperature c.settings) ≡ false
      → calls_llm c.distiller ≡ false
      → with_storage ports mode wipe body c
        ≡ with_storage (with_llm other ports) mode wipe other_body c
  unfolding with_storage with_llm with_open opening open_storage ensure_stack
  with_storage-agree mode wipe body other_body c agree settings own =
      elim (Outcome-cases (ensure_stack ports c).0) [
        | inr (x, k) ↦ rw (with_storage, k) refl
        | inl (t, k) ↦
            let c1 = (ensure_stack ports c).1 in
            rw (with_storage, k)
              (ensured-agree c1.embedder mode wipe body other_body c1 agree
                (ensure_stack-offline c settings own))
      ]

  operation-offline :
      {A : Type 0} (mode : AccessMode) (wipe : Bool) (run : IndexStack → ℕ → Action (World F) A)
      (c : Client F)
      → is_llm_configured (load ports.zero_temperature c.settings) ≡ false
      → calls_llm c.distiller ≡ false
      → with_storage ports mode wipe
          (λ c. checked ports (run (index_stack ports c) (resolve_max_concurrency c)) c)
          c
        ≡ with_storage
            (with_llm other ports)
            mode
            wipe
            (λ c.
              checked
                (with_llm other ports)
                (run (index_stack (with_llm other ports) c) (resolve_max_concurrency c))
                c)
            c
  unfolding checked
  operation-offline mode wipe run c settings own =
      with_storage-agree mode wipe _ _ c
        (λ c h.
          ap (λ stack. checked ports (run stack (resolve_max_concurrency c)) c)
            (index_stack-offline c h))
        settings own

  sync_alone-offline :
      (path : Option Text) (index_all force : Bool) (c : Client F)
      → is_llm_configured (load ports.zero_temperature c.settings) ≡ false
      → calls_llm c.distiller ≡ false
      → sync ports path index_all force c ≡ sync (with_llm other ports) path index_all force c
  unfolding sync with_llm
  sync_alone-offline none false force c settings own = refl
  sync_alone-offline none true force c settings own =
      operation-offline read_write false
        (λ stack max_concurrency.
          run_sync ports.machine ports.project stack ports.refuses
            (sync_options ports none true force max_concurrency))
        c settings own
  sync_alone-offline (some p) index_all force c settings own =
      operation-offline read_write false
        (λ stack max_concurrency.
          run_sync ports.machine ports.project stack ports.refuses
            (sync_options ports (some p) index_all force max_concurrency))
        c settings own

  -- With no LLM in the configuration file, and none in the distiller that the client has, a sync
  -- and a rebuild return or raise the same and leave the same client, whatever the LLM would
  -- answer to any prompt.
  pub sync-offline :
      (path : Option Text) (index_all force : Bool) (c : Client F)
      → is_llm_configured (load ports.zero_temperature c.settings) ≡ false
      → calls_llm c.distiller ≡ false
      → (sync ports path index_all force c ≡ sync (with_llm other ports) path index_all force c)
        × (rebuild ports c ≡ rebuild (with_llm other ports) c)
  unfolding rebuild with_llm
  sync-offline path index_all force c settings own = (
    sync_alone-offline path index_all force c settings own,
    operation-offline read_write true
        (λ stack max_concurrency.
          run_rebuild ports.machine ports.project stack ports.refuses ports.root
            ports.allow_build_execution max_concurrency)
        c settings own,
  )
