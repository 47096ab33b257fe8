-- ===== src/Sentiment/Llm.antt =====
-- src/analysts/sentiment/llm.go: the two clients of a language model. JSON, the HTTP call, letter case
-- beyond the code's own tests, the parsing of a duration and the text of a date are arguments, and so
-- is the prompt that is built in.
pub mod Config
pub mod Scores
use Prim.Native.Char.{Char, code}
use navier_stocks.Base.{
  ℕ, Bool, true, false, Option, none, some, List, [], ◌∷◌, String, ◌==◌, if◌then◌else◌,
}
use navier_stocks.Base.Int.{ℤ, pos, leb_ℤ}
use navier_stocks.Base.Try.{Try, ok, err}
use navier_stocks.Base.Text.{str_eq, is_empty, concat, decimal_text}
use navier_stocks.Base.Trim.{trim}
use navier_stocks.Float.{Float64, nought}
use navier_stocks.Models.{Article, SentimentBias, SentimentScore, validate_score}
use navier_stocks.Sentiment.Fences.{strip_code_fences}

-- `openAIClient` and `ollamaClient`
pub data LlmClient : Type 0 where
  open_ai : (base_url api_key model : String) (timeout : ℤ) → LlmClient
  ollama : (base_url model : String) (timeout : ℤ) → LlmClient

abbrev pub date_text : (ℕ → String) → Option ℕ → String
date_text format none = ""
date_text format (some t) = format t

-- `userPrompt`
unfoldable pub user_prompt : (ℕ → String) → Article → String
user_prompt format a = concat "Ticker: " (
    concat a.ticker (
      concat "\nHeadline: " (
        concat a.title (
          concat "\nPublished: " (
            concat (date_text format a.published_at) (
              concat "\nSource: " (
                concat a.source (
                  concat "\nURL: " (
                    concat a.url
                      "\n\nClassify the sentiment of this headline for the ticker.")))))))))

-- `chatMessage`
pub record ChatMessage : Type 0 where
  pub role : String
  pub content : String

-- `chatRequest` with its `responseFormat`; the temperature is 0 and the stream off in every request.
pub record ChatRequest : Type 0 where
  pub model : String
  pub messages : List ChatMessage
  pub format : String
  pub response_format : Option String

-- The POST of `do`: where to, the Authorization header and the body.
pub record Post : Type 0 where
  pub url : String
  pub authorization : Option String
  pub body : ChatRequest

abbrev pub messages : String → String → List ChatMessage
messages system user =
    record { role = "system"; content = system } ∷ record { role = "user"; content = user } ∷ []

-- What `Score` of either client sends, by its `do`.
unfoldable pub post_for : String → (ℕ → String) → LlmClient → Article → Post
unfolding user_prompt
post_for system format (open_ai base_url api_key model timeout) a = record {
  url = concat base_url "/chat/completions";
  authorization = if is_empty api_key then none else some (concat "Bearer " api_key);
  body = record {
    model = model;
    messages = messages system (user_prompt format a);
    format = "";
    response_format = some "json_object";
  };
}
post_for system format (ollama base_url model timeout) a = record {
  url = concat base_url "/api/chat";
  authorization = none;
  body = record {
    model = model;
    messages = messages system (user_prompt format a);
    format = "json";
    response_format = none;
  };
}

-- The object that the model is asked for.
pub record RawScore (F : Type 0) : Type 0 where
  pub bias : String
  pub confidence : F
  pub summary : String

-- The answer of the provider: its status and its body, if that could be read.
pub record Reply : Type 0 where
  pub status : ℕ
  pub body : Option String

-- The parts of Go's library that the clients use: the errors of a call, JSON for the contents of a
-- reply (`openAIResponse` with its choices, `ollamaResponse` with its message) and for a score.
pub record Services (F : Type 0) : Type 0 where
  pub send : Post → Try Reply
  pub choices : Option String → Try (List String)
  pub message : Option String → Try String
  pub raw_score : String → Try (RawScore F)
  pub upper : String → String

-- The string conversion to `SentimentBias`
abbrev pub bias_of : String → SentimentBias
bias_of s =
    if str_eq s "BULLISH"
    then SentimentBias.bullish
    else if str_eq s "BEARISH"
    then SentimentBias.bearish
    else if str_eq s "NEUTRAL"
    then SentimentBias.neutral
    else SentimentBias.other_bias s

-- `httpStatusError`
unfoldable pub http_status_error : String → Reply → String
unfolding trim decimal_text
http_status_error caller r =
    let message : String = elim r.body [
      | none ↦ ""
      | some text ↦ if is_empty text then "" else concat ": " (trim text)
    ] in
    concat caller (concat ": provider returned HTTP " (concat (decimal_text r.status) message))

-- The first choice of the reply of an OpenAI provider, `""` without one.
abbrev pub first_choice : Try (List String) → Try String
first_choice (err m) = err m
first_choice (ok []) = ok ""
first_choice (ok (content ∷ contents)) = ok content

module _ {F : Type 0} ⦃fl : Float64 F⦄ where
  abbrev pub checked : SentimentScore F → Option String → Try (SentimentScore F)
  checked score none = ok score
  checked score (some m) = err (concat "llm: invalid score: " m)

  abbrev pub validated : SentimentScore F → Try (SentimentScore F)
  validated score = checked score (validate_score score)

  abbrev pub scored :
      (String → String) → String → Article → Try (RawScore F) → Try (SentimentScore F)
  scored upper content a (err m) = err (concat "llm: parse content: " m)
  scored upper content a (ok raw) = validated (record {
    id = 0;
    ticker = a.ticker;
    bias = bias_of (upper (trim raw.bias));
    confidence = raw.confidence;
    summary = raw.summary;
    source = a.source;
    source_url = a.url;
    raw_response = content;
    recorded_at = 0;
  })

  -- `buildScore`
  unfoldable pub build_score : Services F → String → Article → Try (SentimentScore F)
  unfolding strip_code_fences validate_score trim
  build_score net content a =
      let stripped = strip_code_fences content in
      scored net.upper stripped a (net.raw_score stripped)

  abbrev pub read_content : Services F → Article → Try String → Try (SentimentScore F)
  read_content net a (err m) = err (concat "llm: decode response: " m)
  read_content net a (ok content) =
      if is_empty (trim content)
      then err "llm: empty response from provider"
      else build_score net content a

  -- What `Score` does with the reply.
  abbrev pub read_reply : Services F → LlmClient → Article → Try Reply → Try (SentimentScore F)
  read_reply net client a (err m) = err (concat "llm: " m)
  read_reply net (open_ai u k m t) a (ok r) =
      if r.status == 200
      then read_content net a (first_choice (net.choices r.body))
      else err (http_status_error "llm" r)
  read_reply net (ollama u m t) a (ok r) =
      if r.status == 200
      then read_content net a (net.message r.body)
      else err (http_status_error "llm" r)

  -- `Score` of either client
  unfoldable pub score :
      String → (ℕ → String) → Services F → LlmClient → Article → Try (SentimentScore F)
  unfolding post_for build_score http_status_error trim
  score system format net client a =
      read_reply net client a (net.send (post_for system format client a))
