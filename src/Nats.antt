-- ===== src/Nats.antt =====
-- src/pkg/nats: the wrapper of the NATS client. The JetStream context is an argument: what it answers
-- to each call, over a state of the server of whatever type.
pub mod Durables
pub mod Streams
use Prim.Native.Char.{Char, code}
use navier_stocks.Base.{
  ℕ, Bool, true, false, Option, none, some, List, [], ◌∷◌, String, ◌==◌, if◌then◌else◌,
}
use navier_stocks.Base.Text.{concat, is_empty}

-- `StreamConfig`; both streams are stored in files.
pub record StreamConfig : Type 0 where
  pub name : String
  pub subjects : List String
  pub max_age : ℕ

abbrev pub day : ℕ
day = 86_400_000_000_000

-- `StreamTrading`
abbrev pub stream_trading : StreamConfig
stream_trading = record { name = "trading"; subjects = "signal.>" ∷ []; max_age = day }

-- `StreamSentiment`
abbrev pub stream_sentiment : StreamConfig
stream_sentiment = record {
  name = "sentiment";
  subjects = "sentiment.>" ∷ [];
  max_age = 604_800_000_000_000;
}

-- The errors of the wrapper.
pub data NatsError : Type 0 where
  empty_subject : NatsError
  empty_stream_name : NatsError
  failed : (what : String) → (message : String) → NatsError

-- `StreamInfo`: found, the error ErrStreamNotFound, or another one.
pub data Info : Type 0 where
  known : Info
  not_found : Info
  no_info : String → Info

-- `strings.ReplaceAll` of one ASCII character
unfoldable pub replace_all : ℕ → String → String → String
replace_all old new String.[] = String.[]
replace_all old new (String.◌∷◌ c s) =
    let rest = replace_all old new s in if code c == old then concat new rest else String.◌∷◌ c rest

-- The three replacements of `durableName`
abbrev pub sanitized : String → String
sanitized subj = replace_all b'>' "gt" (replace_all b'*' "star" (replace_all b'.' "-" subj))

-- `durableName`
unfoldable pub durable_name : String → String → String
unfolding replace_all
durable_name prefix subj = concat prefix (concat "-" (sanitized subj))

abbrev pub wrapped : String → Option String → Option NatsError
wrapped what none = none
wrapped what (some message) = some (failed what message)

-- `Publish` and `PublishMsg`, with the answer of the server for the subject
unfoldable pub publish : Option String → String → Option NatsError
publish answer subj = if is_empty subj then some empty_subject else wrapped "publish" answer

-- The durable name that `Subscribe` and `QueueSubscribe` ask for, if any.
unfoldable pub durable_option : String → String → Option String
unfolding durable_name
durable_option durable_prefix subj =
    if is_empty durable_prefix then none else some (durable_name durable_prefix subj)

-- `Subscribe`, with what the server answers to the subject and the durable name
unfoldable pub subscribe :
    (String → Option String → Option String) → String → String → Option NatsError
unfolding durable_option
subscribe server durable_prefix subj =
    if is_empty subj
    then some empty_subject
    else wrapped "subscribe" (server subj (durable_option durable_prefix subj))

-- `PullSubscribe`
unfoldable pub pull_subscribe :
    (String → String → Option String) → String → String → Option NatsError
pull_subscribe server subj durable =
    if is_empty subj then some empty_subject else wrapped "pull subscribe" (server subj durable)

module _ {S : Type 0} (info : S → String → Info) (add : StreamConfig → S → Option String × S) where
  abbrev pub after_info : StreamConfig → Info → S → Option NatsError × S
  after_info cfg known s = (none, s)
  after_info cfg (no_info message) s = (some (failed "ensure stream" message), s)
  after_info cfg not_found s = (wrapped "ensure stream" (add cfg s).0, (add cfg s).1)

  -- `EnsureStream`
  unfoldable pub ensure_stream : StreamConfig → S → Option NatsError × S
  ensure_stream cfg s =
      if is_empty cfg.name then (some empty_stream_name, s) else after_info cfg (info s cfg.name) s
