-- ===== src/Config/Update/Valid.antt =====
-- What the configuration is after an update.
use agent_coderag.Prelude.{◌<◌, ◌≡◌, refl, true, false, Option, none, some, inl, inr, arith}
use agent_coderag.Core.{Error, Outcome, ok, raised, Outcome-cases}
use agent_coderag.Config.Settings.{
  Writing, written, unopened, broken, file_after, DistillerConfig, model_validate, half_remote,
  save, load,
}
use agent_coderag.Config.Update.{
  Updates, has_updates, set_distill, clear, set_embedding, check_pair, apply_config_updates,
  save_updated, load_or_update_config,
}

-- Both limits are positive, and the remote embedder has both its address and its model or neither.
pub record IsValid {F : Type 0} (c : DistillerConfig F) : Type 0 where
  pub timeout : 0 < c.timeout
  pub max_concurrency : 0 < c.max_concurrency
  pub paired : half_remote c ≡ false

module _ {F : Type 0} where
  check_pair-ok :
      (r : Outcome (DistillerConfig F)) (c : DistillerConfig F)
      → check_pair r ≡ ok c
      → (r ≡ ok c) × (half_remote c ≡ false)
  unfolding check_pair
  check_pair-ok r c h = ground arith

  model_validate-pos :
      (c d : DistillerConfig F)
      → model_validate c ≡ ok d
      → (0 < d.timeout) × (0 < d.max_concurrency)
  unfolding model_validate
  model_validate-pos c d h = ground arith

  -- An update that is accepted gives a valid configuration.
  pub apply_config_updates-IsValid :
      (c d : DistillerConfig F) (u : Updates) → apply_config_updates c u ≡ ok d → IsValid d
  unfolding apply_config_updates
  apply_config_updates-IsValid c d u h =
      let e : check_pair
            (model_validate (set_embedding u (clear u.clear_embedding (set_distill u c))))
          ≡ ok d =
        ground arith in
      let (validated, paired) = check_pair-ok _ d e in
      let (t, m) = model_validate-pos _ d validated in
      record { timeout = t; max_concurrency = m; paired = paired }

  save_updated-cases :
      (writing : Writing) (r : Outcome (DistillerConfig F)) (file : Option (DistillerConfig F))
      → ((c : DistillerConfig F) → r ≡ ok c → half_remote c ≡ false)
      → save_updated writing r file ≡ (
        r,
        elim r as (λ _. Option (DistillerConfig F)) [
          | ok c ↦ file_after writing c file
          | raised e ↦ file
        ],
      )
  unfolding save_updated save
  save_updated-cases writing (raised e) file h = refl
  save_updated-cases writing (ok c) file h = ground (arith, h c refl)

  -- With something to update, what the call returns has a positive timeout and concurrency and has
  -- both or neither of the embedding base and model, and the file is what the writing made of it.
  load_or_update_config-IsValid :
      (zero_temperature : F) (writing : Writing) (u : Updates) (file : Option (DistillerConfig F))
      (c : DistillerConfig F)
      → has_updates u ≡ true
      → (load_or_update_config zero_temperature writing u file).0 ≡ ok c
      → IsValid c
        × ((load_or_update_config zero_temperature writing u file).1 ≡ file_after writing c file)
  unfolding load_or_update_config
  load_or_update_config-IsValid z writing u file c h e =
      let r = apply_config_updates (load z file) u in
      let paired : (d : DistillerConfig F) → r ≡ ok d → half_remote d ≡ false =
        λ d q. (apply_config_updates-IsValid (load z file) d u q).paired in
      let saved = save_updated-cases writing r file paired in
      let accepted : r ≡ ok c = ground (arith, saved) in
      (apply_config_updates-IsValid (load z file) c u accepted, ground (arith, saved))

  -- A call that raises leaves the configuration file as it was.
  load_or_update_config_raised :
      (zero_temperature : F) (writing : Writing) (u : Updates) (file : Option (DistillerConfig F))
      (x : Error)
      → (load_or_update_config zero_temperature writing u file).0 ≡ raised x
      → (load_or_update_config zero_temperature writing u file).1 ≡ file
  unfolding load_or_update_config
  load_or_update_config_raised z writing u file x e =
      let r = apply_config_updates (load z file) u in
      let paired : (d : DistillerConfig F) → r ≡ ok d → half_remote d ≡ false =
        λ d q. (apply_config_updates-IsValid (load z file) d u q).paired in
      ground (arith, save_updated-cases writing r file paired)

  -- What a writing of a configuration leaves.
  unfoldable pub IsFileAfter :
      Writing → DistillerConfig F → Option (DistillerConfig F) → Option (DistillerConfig F) → Type 0
  IsFileAfter written c before after = after ≡ some c
  IsFileAfter unopened c before after = after ≡ before
  IsFileAfter broken c before after = after ≡ none

  file_after-IsFileAfter :
      (writing : Writing) (c : DistillerConfig F) (before after : Option (DistillerConfig F))
      → after ≡ file_after writing c before
      → IsFileAfter writing c before after
  unfolding file_after IsFileAfter
  file_after-IsFileAfter written c before after h = h
  file_after-IsFileAfter unopened c before after h = h
  file_after-IsFileAfter broken c before after h = h

  -- What a call leaves in the file: what it returned, which is valid, if that was written; or what
  -- was there, if the file could not be opened or the call raised; or nothing that can be read.
  unfoldable pub IsUpdated :
      Writing
      → Option (DistillerConfig F)
      → Outcome (DistillerConfig F)
      → Option (DistillerConfig F)
      → Type 0
  IsUpdated writing before (ok c) after = IsValid c × IsFileAfter writing c before after
  IsUpdated writing before (raised x) after = after ≡ before

  -- With something to update, the call either returns a configuration that has a positive timeout
  -- and concurrency, and both or neither of the embedding base and model; the file then holds it
  -- if the write succeeds, is as it was if the file cannot be opened, and cannot be read if the
  -- write breaks off. Or it raises and the file is as it was.
  pub load_or_update_config-IsUpdated :
      (zero_temperature : F) (writing : Writing) (u : Updates) (file : Option (DistillerConfig F))
      → has_updates u ≡ true
      → let r = load_or_update_config zero_temperature writing u file in
        IsUpdated writing file r.0 r.1
  unfolding IsUpdated
  load_or_update_config-IsUpdated z writing u file h =
      elim (Outcome-cases (load_or_update_config z writing u file).0) [
        | inl (c, k) ↦
            let (valid, after) = load_or_update_config-IsValid z writing u file c h k in
            rw k (valid, file_after-IsFileAfter writing c file _ after)
        | inr (x, k) ↦ rw k (load_or_update_config_raised z writing u file x k)
      ]
