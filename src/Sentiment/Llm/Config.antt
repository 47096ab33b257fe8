-- ===== src/Sentiment/Llm/Config.antt =====
-- src/analysts/sentiment/llm.go: the configuration of a client.
use Prim.Native.Char.{code}
use navier_stocks.Base.{Option, none, some, String, ◌==◌, if◌then◌else◌}
use navier_stocks.Base.Int.{ℤ, pos, leb_ℤ}
use navier_stocks.Base.Try.{Try, ok, err}
use navier_stocks.Base.Text.{str_eq, is_empty}
use navier_stocks.Sentiment.Llm.{LlmClient, open_ai, ollama}

-- `LLMConfig`, the timeout in nanoseconds
pub record LlmConfig : Type 0 where
  pub provider : String
  pub base_url : String
  pub api_key : String
  pub model : String
  pub timeout : ℤ

abbrev pub minute : ℤ
minute = pos 60_000_000_000

-- `strings.TrimSuffix` of a slash
unfoldable pub without_slash : String → String
without_slash String.[] = String.[]
without_slash (String.◌∷◌ c String.[]) =
    if code c == b'/' then String.[] else String.◌∷◌ c String.[]
without_slash (String.◌∷◌ c (String.◌∷◌ d s)) = String.◌∷◌ c (without_slash (String.◌∷◌ d s))

-- The switch of `NewLLMClient`, of the provider in lower case
abbrev pub client_of : String → LlmConfig → ℤ → Try LlmClient
client_of provider cfg timeout =
    if str_eq provider ""
    then ok (open_ai (without_slash cfg.base_url) cfg.api_key cfg.model timeout)
    else if str_eq provider "openai"
    then ok (open_ai (without_slash cfg.base_url) cfg.api_key cfg.model timeout)
    else if str_eq provider "ollama"
    then ok (ollama (without_slash cfg.base_url) cfg.model timeout)
    else err "llm: unsupported provider (want openai or ollama)"

-- `NewLLMClient`; the error for an unknown provider is without its quotation.
unfoldable pub new_llm_client : (String → String) → LlmConfig → Try LlmClient
unfolding without_slash
new_llm_client lower cfg =
    if is_empty cfg.model
    then err "llm: model is required"
    else client_of (lower cfg.provider) cfg
        (if leb_ℤ cfg.timeout (pos 0) then minute else cfg.timeout)

-- `envOr`
unfoldable pub env_or : (String → String) → String → String → String
env_or env key fallback = if is_empty (env key) then fallback else env key

-- `LLMConfigFromEnv`; a variable that is not set reads as "".
unfoldable pub llm_config_from_env :
    (String → String) → (String → Option ℤ) → (String → String) → LlmConfig
unfolding env_or
llm_config_from_env lower parse_duration env =
    let named = lower (env "LLM_PROVIDER") in
    let provider = if is_empty named then "ollama" else named in
    let hosted = str_eq provider "openai" in
    let raw = env "LLM_TIMEOUT" in
    record {
      provider = provider;
      base_url =
          env_or env "LLM_BASE_URL"
            (if hosted then "https://api.openai.com/v1" else "http://localhost:11434");
      api_key = env "LLM_API_KEY";
      model = env_or env "LLM_MODEL" (if hosted then "gpt-4o-mini" else "llama3");
      timeout =
          if is_empty raw then minute else elim (parse_duration raw) [ some d ↦ d | none ↦ minute ];
    }
