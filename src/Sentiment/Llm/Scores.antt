-- ===== src/Sentiment/Llm/Scores.antt =====
-- src/analysts/sentiment/llm.go: the scores that a client returns.
use navier_stocks.Base.{ℕ, ◌≡◌, refl, inl, inr, Option, none, some, String, ◌==◌, Bool-cases}
use navier_stocks.Base.Try.{Try, ok, err}
use navier_stocks.Base.Text.{is_empty}
use navier_stocks.Base.Trim.{trim}
use navier_stocks.Float.{Float64}
use navier_stocks.Models.{Article, SentimentScore, validate_score}
use navier_stocks.Sentiment.Llm.{
  LlmClient, open_ai, ollama, RawScore, Reply, Services, checked, scored, build_score, read_content,
  read_reply, first_choice, score, post_for,
}

module _ {F : Type 0} ⦃fl : Float64 F⦄ where
  -- A score that may be stored, of the article.
  pub record IsScoreOf (a : Article) (s : SentimentScore F) : Type 0 where
    pub valid : validate_score s ≡ none
    pub own : s.ticker ≡ a.ticker
    pub cited : s.source_url ≡ a.url
    pub named : s.source ≡ a.source

  abbrev pub Promises : Article → Try (SentimentScore F) → Type 0
  Promises a (err m) = Unit
  Promises a (ok s) = IsScoreOf a s

  checked-Promises :
      (a : Article) (s : SentimentScore F) (message : Option String)
      → validate_score s ≡ message
      → s.ticker ≡ a.ticker
      → s.source_url ≡ a.url
      → s.source ≡ a.source
      → Promises a (checked s message)
  checked-Promises a s (some m) judged own cited named = tt
  checked-Promises a s none judged own cited named = record {
    valid = judged;
    own = own;
    cited = cited;
    named = named;
  }

  scored-Promises :
      (upper : String → String) (content : String) (a : Article) (raw : Try (RawScore F))
      → Promises a (scored upper content a raw)
  unfolding trim
  scored-Promises upper content a (err m) = tt
  scored-Promises upper content a (ok raw) = checked-Promises a _ _ refl refl refl refl

  read_content-Promises :
      (net : Services F) (a : Article) (content : Try String)
      → Promises a (read_content net a content)
  unfolding build_score
  read_content-Promises net a (err m) = tt
  read_content-Promises net a (ok content) = elim (Bool-cases (is_empty (trim content))) [
    | inl blank ↦ simp blank tt
    | inr full ↦ simp full (scored-Promises net.upper _ a _)
  ]

  read_reply-Promises :
      (net : Services F) (client : LlmClient) (a : Article) (reply : Try Reply)
      → Promises a (read_reply net client a reply)
  read_reply-Promises net client a (err m) = tt
  read_reply-Promises net (open_ai u k m t) a (ok r) = elim (Bool-cases (r.status == 200)) [
    | inl fine ↦ simp fine (read_content-Promises net a (first_choice (net.choices r.body)))
    | inr bad ↦ simp bad tt
  ]
  read_reply-Promises net (ollama u m t) a (ok r) = elim (Bool-cases (r.status == 200)) [
    | inl fine ↦ simp fine (read_content-Promises net a (net.message r.body))
    | inr bad ↦ simp bad tt
  ]

  -- Whatever the provider answers, a score that a client returns passes `Validate` and carries the
  -- ticker, the URL and the source of its article.
  pub score-Promises :
      (system : String) (format : ℕ → String) (net : Services F) (client : LlmClient) (a : Article)
      → Promises a (score system format net client a)
  unfolding score
  score-Promises system format net client a =
      read_reply-Promises net client a (net.send (post_for system format client a))
