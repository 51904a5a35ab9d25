-- ===== src/Intelligence/Factory.antt =====
-- code_rag/intelligence/factory.py: which embedder a configuration gives. The embedding service is
-- `respond`, and loading the local model is `local_embedder`.
use agent_coderag.Prelude.{
  Bool, true, false, not, ◌&&◌, Option, none, some, List, [], Text, text, ◌++◌, ◌==◌, text_eq,
  if◌then◌else◌, starts_with,
}
use agent_coderag.Core.{intelligence_error, Outcome, ok, raised, truthy}
use agent_coderag.Intelligence.Embedder.{Embedder}
use agent_coderag.Config.Settings.{DistillerConfig, half_remote}

unfoldable pub is_ollama : Option Text → Bool
is_ollama none = false
is_ollama (some provider) = provider == text "ollama"

-- `self._model` of `OpenAICompatEmbedder`.
unfoldable pub remote_model_id : Option Text → Option Text → Text
remote_model_id provider none = []
remote_model_id provider (some model) =
    if is_ollama provider && not (starts_with model (text "ollama/"))
    then text "ollama/" ++ model
    else model

module _ {F : Type 0} (respond : DistillerConfig F → List Text → Option (List (List F)))
    (normalize : List F → List F) where
  -- `OpenAICompatEmbedder(…)`
  unfoldable pub remote_embedder : DistillerConfig F → Embedder F
  remote_embedder c = record {
    model_id = remote_model_id c.embedding_provider c.embedding_model;
    bound_dimension = none;
    remote = true;
    respond = respond c;
    normalize = normalize;
  }

  unfoldable pub create_embedder : Outcome (Embedder F) → DistillerConfig F → Outcome (Embedder F)
  create_embedder local_embedder c =
      if half_remote c
      then raised intelligence_error
      else if truthy c.embedding_base && truthy c.embedding_model
      then ok (remote_embedder c)
      else local_embedder
