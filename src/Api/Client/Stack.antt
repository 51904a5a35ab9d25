-- ===== src/Api/Client/Stack.antt =====
-- The stack that an operation works with.
use agent_coderag.Prelude.{
  ◌≡◌, refl, arith, Bool, true, false, not, ◌&&◌, ◌||◌, Option, none, some, inl, inr, Bool-cases,
  Option-cases,
}
use agent_coderag.Core.{runtime_error, ok, Outcome-cases, Action, fail_if, ◌>>◌}
use agent_coderag.Intelligence.Embedder.{Embedder}
use agent_coderag.Intelligence.Factory.{create_embedder}
use agent_coderag.Config.Settings.{DistillerConfig, load}
use agent_coderag.Config.Update.{
  Updates, load_or_update_config, embedding_fields_requested, distill_fields_requested,
}
use agent_coderag.Storage.State.{AccessMode, Storage}
use agent_coderag.Sync.Build.State.{World}
use agent_coderag.Api.Client.{
  Client, Ports, opening, is_some, ensure_stack, with_open, with_storage, checked, use_storage,
  open_storage, invalidate_stack_after_config, config,
}
use agent_coderag.Api.Client.Rest.{opening-IsAtRest, IsAtRest, Keeps-ensure_stack}

module _ {F : Type 0} (ports : Ports F) where
  invalidate_stack-embedder :
      (distill : Bool) (c : Client F)
      → (invalidate_stack_after_config ports true distill c).1.embedder ≡ none
  unfolding invalidate_stack_after_config
  invalidate_stack-embedder distill c = elim (Option-cases c.embedder) [
    | inl gone ↦ elim (Bool-cases (distill && is_some c.distiller)) [
      | inl k ↦ rw (invalidate_stack_after_config, gone, k) refl
      | inr k ↦ rw (invalidate_stack_after_config, gone, k) refl
    ]
    | inr (old, had) ↦ rw (invalidate_stack_after_config, had) refl
  ]

  config-embedder :
      (u : Updates) (c : Client F) (r : DistillerConfig F)
      → embedding_fields_requested u ≡ true
      → (config ports u c).0 ≡ ok r
      → (config ports u c).1.embedder ≡ none
  unfolding config invalidate_stack_after_config
  config-embedder u c r asked h =
      elim (Outcome-cases
        (load_or_update_config ports.zero_temperature ports.writing u c.settings).0) [
          | inr (x, k) ↦ absurd (ground (arith, k))
          | inl (d, k) ↦
              rw (k, asked)
                (invalidate_stack-embedder (distill_fields_requested u) (record c {
                  settings =
                      (load_or_update_config ports.zero_temperature ports.writing u c.settings).1;
                }))
        ]

  ensure_stack-fresh :
      (c : Client F) (e : Embedder F)
      → c.embedder ≡ none
      → create_embedder ports.respond ports.normalize ports.local_embedder
          (load ports.zero_temperature c.settings)
        ≡ ok e
      → ensure_stack ports c ≡ (
        ok tt,
        record c {
          embedder = some e;
          parser = true;
          distiller = some (load ports.zero_temperature c.settings);
        },
      )
  unfolding ensure_stack
  ensure_stack-fresh c e gone made = rw (ensure_stack, gone, made) refl

  -- A configuration call that sets a field of the embedding and returns makes the next operation
  -- start from an embedder that is made for the configuration that is then in the file, whether or
  -- not there was one before; and with it a parser and a distiller of that configuration.
  pub config-ensure_stack :
      (u : Updates) (c : Client F) (r : DistillerConfig F) (e : Embedder F)
      → embedding_fields_requested u ≡ true
      → (config ports u c).0 ≡ ok r
      → let after = (config ports u c).1 in
        let settings = load ports.zero_temperature after.settings in
        create_embedder ports.respond ports.normalize ports.local_embedder settings ≡ ok e
        → ensure_stack ports after
          ≡ (ok tt, record after { embedder = some e; parser = true; distiller = some settings })
  config-ensure_stack u c r e asked h made =
      ensure_stack-fresh (config ports u c).1 e (config-embedder u c r asked h) made

  guard-false :
      (c : Client F)
      → IsAtRest c
      → is_some c.embedder ≡ true
      → (not c.parser || not (is_some c.distiller)) ≡ false
  guard-false c i h = let p = i.parsing in let d = i.distilling in ground arith

  use_storage-checked :
      {A : Type 0} (body : Action (World F) A) (s : Storage F) (c : Client F)
      → IsAtRest c
      → is_some c.embedder ≡ true
      → use_storage (checked ports body) s c ≡ use_storage (λ _. body) s c
  unfolding use_storage checked
  use_storage-checked body s c i h = rw (guard-false c i h) refl

  with_open-checked :
      {A : Type 0} (e : Option (Embedder F)) (mode : AccessMode) (wipe : Bool)
      (body : Action (World F) A) (c : Client F)
      → IsAtRest c
      → is_some c.embedder ≡ true
      → with_open ports e mode wipe (checked ports body) c
        ≡ with_open ports e mode wipe (λ _. body) c
  unfolding with_open opening
  with_open-checked e mode wipe body c i h =
      elim (Outcome-cases (open_storage ports e mode wipe c)) [
        | inr (x, k) ↦ rw (with_open, k) refl
        | inl (s, k) ↦
            rw (with_open, k)
              (use_storage-checked body s (opening ports mode c) (opening-IsAtRest ports mode c i)
                h)
      ]

  ensured-checked :
      {A : Type 0} (e : Option (Embedder F)) (mode : AccessMode) (wipe : Bool)
      (body : Action (World F) A) (c : Client F)
      → IsAtRest c
      → is_some c.embedder ≡ is_some e
      → (fail_if (not (is_some e)) runtime_error
            >> with_open ports e mode wipe (checked ports body))
          c
        ≡ (fail_if (not (is_some e)) runtime_error >> with_open ports e mode wipe (λ _. body)) c
  ensured-checked none mode wipe body c i h = refl
  ensured-checked (some e) mode wipe body c i h = with_open-checked (some e) mode wipe body c i h

  -- Between operations, the check for a parser and a distiller in `sync` and `rebuild` never
  -- raises: an operation with the check does what it does without.
  pub with_storage-checked :
      {A : Type 0} (mode : AccessMode) (wipe : Bool) (body : Action (World F) A) (c : Client F)
      → IsAtRest c
      → with_storage ports mode wipe (checked ports body) c
        ≡ with_storage ports mode wipe (λ _. body) c
  unfolding with_storage
  with_storage-checked mode wipe body c i = elim (Outcome-cases (ensure_stack ports c).0) [
    | inr (x, k) ↦ rw (with_storage, k) refl
    | inl (t, k) ↦
        let c1 = (ensure_stack ports c).1 in
        rw (with_storage, k)
          (ensured-checked c1.embedder mode wipe body c1 ((Keeps-ensure_stack ports).after c i)
            refl)
  ]
