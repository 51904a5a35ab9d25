-- ===== src/Intelligence/Distiller.antt =====
-- `Distiller` of code_rag/intelligence/distiller.py. `F` stands for the temperature, and `complete`
-- is `litellm.acompletion` with the content that it answers, none where the call raises.
use agent_coderag.Prelude.{
  ℕ, false, not, ◌&&◌, Option, none, some, [], Text, text, ◌++◌, if◌then◌else◌, starts_with, ◌≡◌,
  ◌∙◌, sym, arith,
}
use agent_coderag.Prelude.Strip.{strip}
use agent_coderag.Config.Settings.{DistillerConfig, is_llm_configured}
use agent_coderag.Intelligence.Factory.{is_ollama}

-- The arguments of one call of the LLM.
pub record Completion (F : Type 0) : Type 0 where
  pub model : Text
  pub prompt : Text
  pub api_base : Option Text
  pub api_key : Option Text
  pub temperature : F
  pub timeout : ℕ
  pub custom_llm_provider : Option Text

unfoldable pub prompt_of : Text → Text → Text
prompt_of code unit_name =
    text "\nAnalyze the following code block for '"
    ++ (unit_name
        ++ (text
              "'.\nProvide a concise, 1-2 sentence technical description of its core logic and intent.\n"
            ++ (text "Focus on WHAT it accomplishes and its role in the system.\n"
                ++ (text "DO NOT repeat the signature.\n"
                    ++ (text "DO NOT include docstrings or comments in your summary.\n\nCODE:\n"
                        ++ (code ++ text "\n\nSUMMARY:\n"))))))

-- `str(self.config.model)`
unfoldable pub model_name : Option Text → Text
model_name none = text "None"
model_name (some model) = model

unfoldable pub distill_model : Option Text → Option Text → Text
distill_model provider model =
    let name = model_name model in
    if is_ollama provider && not (starts_with name (text "ollama/"))
    then text "ollama/" ++ name
    else name

unfoldable pub stripped : Option Text → Option Text
stripped none = none
stripped (some content) = some (strip content)

module _ {F : Type 0} where
  unfoldable pub completion_of : DistillerConfig F → Text → Text → Completion F
  completion_of c code unit_name = record {
    model = distill_model c.provider c.model;
    prompt = prompt_of code unit_name;
    api_base = c.api_base;
    api_key = c.api_key;
    temperature = c.temperature;
    timeout = c.timeout;
    custom_llm_provider = c.provider;
  }

  unfoldable pub summarize :
      (Completion F → Option Text) → DistillerConfig F → Text → Text → Option Text
  summarize complete c code unit_name =
      if is_llm_configured c then stripped (complete (completion_of c code unit_name)) else some []

  summarize-empty :
      (complete : Completion F → Option Text) (c : DistillerConfig F) (code unit_name : Text)
      → is_llm_configured c ≡ false
      → summarize complete c code unit_name ≡ some []
  unfolding summarize
  summarize-empty complete c code unit_name h = ground arith

  -- Without a configured LLM, the summary of any code is the same whatever the LLM answers.
  pub summarize-offline :
      (complete other : Completion F → Option Text) (c : DistillerConfig F)
      → is_llm_configured c ≡ false
      → summarize complete c ≡ summarize other c
  summarize-offline complete other c h i code unit_name =
      (summarize-empty complete c code unit_name h ∙ sym (summarize-empty other c code unit_name h))
        i
