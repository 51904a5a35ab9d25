-- ===== src/Tests/Clients.antt =====
-- The client and the commands.
use agent_coderag.Prelude.{
  ℕ, ◌≡◌, ◌↔◌, ◌⊎◌, refl, true, false, none, some, text, Text, Option, text_eq, nat_eq, ◌++◌,
  starts_with,
}
use agent_coderag.Core.{Error, ok}
use agent_coderag.Intelligence.Distiller.{
  Completion, summarize, stripped, completion_of, distill_model, model_name,
}
use agent_coderag.Intelligence.Factory.{
  create_embedder, remote_embedder, is_ollama, remote_model_id,
}
use agent_coderag.Config.Settings.{
  file_after, DistillerConfig, load, defaults, save, half_remote, model_validate, blank_to_none,
  is_llm_configured,
}
use agent_coderag.Config.Update.{
  Updates, load_or_update_config, embedding_fields_requested, distill_fields_requested, has_updates,
  apply_config_updates, save_updated, not_positive, check_pair, set_distill, clear, set_embedding,
  set_text, set_number, number_given,
}
use agent_coderag.Prelude.Strip.{strip, lstrip, is_space}
use agent_coderag.Storage.State.{read_write}
use agent_coderag.Sync.Run.{run_sync}
use agent_coderag.Api.Client.{
  Client, new_client, with_storage, checked, config, ensure_stack, invalidate_stack_after_config,
  sync, rebuild, search,
}
use agent_coderag.Api.Client.Rest.{IsAtRest, created, synced, searched, Reached-IsAtRest}
use agent_coderag.Api.Client.Offline.{calls_llm, with_llm, sync-offline}
use agent_coderag.Api.Client.Stack.{config-ensure_stack, with_storage-checked}
use agent_coderag.Entry.Cli.{checked_path, exit_code, sync_cmd, search_cmd, api_cmd, rebuild_cmd}
use agent_coderag.Entry.Cli.Codes.{
  IsInterrupted, IsOneJson, Succeeds, sync_cmd-exit, json_printed-IsOneJson,
}
use agent_coderag.Tests.Data.{fresh_db}
use agent_coderag.Tests.Machines.{machine, project, stack, options, refuses, ports}

abbrev client : Client ℕ
client = new_client fresh_db true none

abbrev client_synced : Client ℕ
client_synced = (sync ports none true false client).1

Reached-IsAtRest_example : IsAtRest (search ports (text "parse") 5 client_synced).1
Reached-IsAtRest_example = Reached-IsAtRest ports _ (
    searched (text "parse") 5 client_synced
      (synced none true false client (created fresh_db true none)))

with_storage_example :
    with_storage ports read_write false
      (checked ports (run_sync machine project stack refuses options))
      client
    ≡ with_storage ports read_write false
        (λ _. run_sync machine project stack refuses options)
        client
with_storage_example =
    with_storage-checked ports read_write false (run_sync machine project stack refuses options)
      client (Reached-IsAtRest ports client (created fresh_db true none))

abbrev message : Error → Text
message e = text "failed"

sync_cmd_example :
    ((exit_code (sync_cmd message ports true none none true false client).ended ≡ 0) ↔ (
      (p : Option Text) × (checked_path ports.machine.system none ≡ ok p)
      × (IsInterrupted {F = ℕ} none ⊎ Succeeds (sync ports p true false client).0)))
    × ((exit_code (rebuild_cmd message ports true none client).ended ≡ 0)
        ↔ (IsInterrupted {F = ℕ} none ⊎ Succeeds (rebuild ports client).0))
sync_cmd_example = sync_cmd-exit message ports true none none true false client

json_printed_example :
    IsOneJson (search_cmd message ports true none (text "parse") 5 client).printed
    × IsOneJson (api_cmd message ports true none (text "guava") none client).printed
    × IsOneJson (rebuild_cmd message ports true none client).printed
    × IsOneJson (sync_cmd message ports true none none true false client).printed
unfolding checked_path
json_printed_example =
    json_printed-IsOneJson message ports client (text "parse") 5 (text "guava") none none none true
      false refl

-- A remote embedder is asked for.
abbrev updates : Updates
updates = record {
  url = none;
  key = none;
  model = none;
  provider = none;
  timeout = none;
  max_concurrency = none;
  embedding_url = some (text "u");
  embedding_key = none;
  embedding_model = some (text "m");
  embedding_provider = none;
  clear_embedding = false;
}

abbrev with_remote : DistillerConfig ℕ
with_remote = record (defaults 0) {
  embedding_base = some (text "u");
  embedding_model = some (text "m");
}

config_example :
    let after = (config ports updates client).1 in
    let settings = load ports.zero_temperature after.settings in
    ensure_stack ports after ≡ (
      ok tt,
      record after {
        embedder = some (remote_embedder ports.respond ports.normalize with_remote);
        parser = true;
        distiller = some settings;
      },
    )
unfolding embedding_fields_requested config load_or_update_config has_updates save_updated
    apply_config_updates not_positive check_pair model_validate set_embedding clear set_distill
    set_number load new_client defaults half_remote invalidate_stack_after_config blank_to_none save
    distill_fields_requested number_given set_text nat_eq is_space lstrip strip create_embedder
    remote_embedder is_ollama remote_model_id file_after
config_example =
    config-ensure_stack ports updates client with_remote
      (remote_embedder ports.respond ports.normalize with_remote) refl refl refl

abbrev answering : Completion ℕ → Option Text
answering request = some (text "An answer.")

sync_offline_example :
    (sync ports none true false client ≡ sync (with_llm answering ports) none true false client)
    × (rebuild ports client ≡ rebuild (with_llm answering ports) client)
unfolding new_client load defaults is_llm_configured calls_llm
sync_offline_example = sync-offline ports answering none true false client refl refl

abbrev with_ollama : DistillerConfig ℕ
with_ollama = record (defaults 0) {
  model = some (text "m");
  api_base = some (text "u");
  provider = some (text "ollama");
}

summarize_test :
    summarize (λ request. some (request.model ++ text " \n")) with_ollama (text "c") (text "n")
    ≡ some (text "ollama/m")
unfolding summarize stripped completion_of distill_model model_name is_ollama is_llm_configured
    strip lstrip is_space defaults nat_eq text_eq starts_with
summarize_test = refl
