-- ===== src/Groww/Client.antt =====
-- src/pkg/groww/client.go: the requests of the client. The server, the clock and the JSON decoders
-- are arguments: `Attempt` is what they answer in one round of `do`. The rounds of its recursion are
-- counted by fuel, and `none` says that it is still retrying.
pub mod Retries
pub mod Answers
use navier_stocks.Base.{
  ℕ, zero, suc, ◌&&◌, ◌||◌, not, Bool, true, false, Option, none, some, String, ltb, leb, ◌==◌,
  if◌then◌else◌,
}
use navier_stocks.Base.Try.{Try, ok, err}
use navier_stocks.Base.Text.{concat, is_empty, str_eq, decimal_text}
use navier_stocks.Groww.Errors.{RefreshError, GrowwError}
use navier_stocks.Groww.Types.{api_status_success}

-- `http.Response`; the body is what reading it gives.
pub record Response : Type 0 where
  pub status : ℕ
  pub body : Try String

-- `Client`, as far as a request changes or reads it.
pub record Client : Type 0 where
  pub token : String
  pub api_key : String
  pub api_secret : String

-- What the token endpoint answers: to the time stamp and the checksum, and what decoding its body gives.
pub record TokenServer : Type 0 where
  pub unix : ℕ
  pub built : Option String
  pub sent : String → String → Try Response
  pub decoded : Try String

-- What one round of `do` meets. The server is given the bearer token.
pub record Attempt : Type 0 where
  pub marshalled : Option String
  pub built : Option String
  pub sent : String → Try Response
  pub closed : Option String
  pub tokens : TokenServer

-- `SetToken`
unfoldable pub set_token : String → Client → Client
set_token token c = record c { token = token }

abbrev pub take_token : Try String → Client → Option RefreshError × Client
take_token (err message) c = (some (RefreshError.bad_body message), c)
take_token (ok token) c =
    if is_empty token then (some RefreshError.empty_token, c) else (none, set_token token c)

abbrev pub read_tokens : Try Response → Try String → Client → Option RefreshError × Client
read_tokens (err message) decoded c = (some (RefreshError.not_sent message), c)
read_tokens (ok resp) decoded c =
    if resp.status == 200
    then take_token decoded c
    else (some (RefreshError.bad_status resp.status), c)

abbrev pub ask_token :
    (String → String) → TokenServer → Option String → Client → Option RefreshError × Client
ask_token sha256 server (some message) c = (some (RefreshError.not_sent message), c)
ask_token sha256 server none c =
    let ts = decimal_text server.unix in
    read_tokens (server.sent ts (sha256 (concat c.api_secret ts))) server.decoded c

-- `refreshToken`, over the hexadecimal SHA-256 of a text
unfoldable pub refresh_token :
    (String → String) → TokenServer → Client → Option RefreshError × Client
unfolding set_token
refresh_token sha256 server c = ask_token sha256 server server.built c

-- The end of a round of `do`, or the client with which it starts again.
pub data Round : Type 0 where
  ended : Response → Round
  failed : GrowwError → Round
  again : Client → Round

abbrev pub after_refresh : Option RefreshError × Client → Round
after_refresh (some e, c) = failed (GrowwError.refresh_failed e)
after_refresh (none, c) = again c

abbrev pub after_close : (String → String) → TokenServer → Option String → Client → Round
after_close sha256 server (some message) c = failed (GrowwError.not_closed message)
after_close sha256 server none c = after_refresh (refresh_token sha256 server c)

abbrev pub has_keys : Client → Bool
has_keys c = not (is_empty c.api_key) && not (is_empty c.api_secret)

abbrev pub after_sent : (String → String) → Attempt → Try Response → Client → Round
after_sent sha256 a (err message) c = failed (GrowwError.not_sent message)
after_sent sha256 a (ok resp) c =
    if resp.status == 401 && has_keys c then after_close sha256 a.tokens a.closed c else ended resp

abbrev pub after_built : (String → String) → Attempt → Option String → Client → Round
after_built sha256 a (some message) c = failed (GrowwError.not_built message)
after_built sha256 a none c = after_sent sha256 a (a.sent c.token) c

abbrev pub after_marshalled : (String → String) → Attempt → Option String → Client → Round
after_marshalled sha256 a (some message) c = failed (GrowwError.not_marshalled message)
after_marshalled sha256 a none c = after_built sha256 a a.built c

-- One round of `do`, after the rate limiter.
unfoldable pub round : (String → String) → Attempt → Client → Round
unfolding refresh_token
round sha256 a c = after_marshalled sha256 a a.marshalled c

-- What `do` returns.
pub data Done : Type 0 where
  response : Response → Done
  failure : GrowwError → Done

-- The end of a round, or `more` rounds.
abbrev pub settle : (Client → Option Done) → Round → Option Done
settle more (Round.ended resp) = some (response resp)
settle more (Round.failed e) = some (failure e)
settle more (Round.again c) = more c

-- `do` from round `n` on.
unfoldable pub do_request : (String → String) → (ℕ → Attempt) → ℕ → ℕ → Client → Option Done
unfolding round
do_request sha256 world zero n c = none
do_request sha256 world (suc fuel) n c =
    settle (do_request sha256 world fuel (suc n)) (round sha256 (world n) c)

-- What `decodeResponse` leaves in its destination, or its error.
pub data Decoded (A : Type 0) : Type 0 where
  value : A → Decoded A
  wrong : GrowwError → Decoded A

-- What encoding/json reads in a body: the status of the envelope with its payload, if there is one;
-- and the code and the message of a failure.
pub record Json : Type 0 where
  pub envelope : String → Try (String × Option String)
  pub complaint : String → Option (String × String)

abbrev pub http_text : ℕ → String
http_text status = concat "HTTP " (decimal_text status)

abbrev pub api_error : ℕ → Option (String × String) → GrowwError
api_error status none =
    GrowwError.api (record { http_status = status; code = ""; message = http_text status })
api_error status (some (code, message)) =
    if is_empty message
    then GrowwError.api (record { http_status = status; code = ""; message = http_text status })
    else GrowwError.api (record { http_status = status; code = code; message = message })

-- `decodeError`; its message is never empty, so the body never takes its place.
unfoldable pub decode_error : Json → ℕ → String → GrowwError
decode_error json status body = api_error status (json.complaint body)

abbrev pub is_success : ℕ → Bool
is_success status = not (ltb status 200 || leb 300 status)

module _ {A : Type 0} (json : Json) (payload : String → Try A) (zero_value : A) where
  abbrev pub read_payload : Try A → Decoded A
  read_payload (err message) = wrong (GrowwError.payload_not_decoded message)
  read_payload (ok a) = value a

  abbrev pub read_envelope : ℕ → String → Try (String × Option String) → Decoded A
  read_envelope status raw (err message) = wrong (GrowwError.not_decoded message)
  read_envelope status raw (ok (state, some text)) =
      if str_eq state api_status_success
      then read_payload (payload text)
      else wrong (decode_error json status raw)
  read_envelope status raw (ok (state, none)) =
      if str_eq state api_status_success
      then value zero_value
      else wrong (decode_error json status raw)

  abbrev pub read_body : ℕ → Try String → Decoded A
  read_body status (err message) = wrong (GrowwError.not_read message)
  read_body status (ok raw) =
      if is_success status
      then read_envelope status raw (json.envelope raw)
      else wrong (decode_error json status raw)

  -- `decodeResponse`, with the decoder of the payload and the zero value of the destination
  unfoldable pub decode_response : Response → Decoded A
  unfolding decode_error
  decode_response resp = read_body resp.status resp.body

  abbrev pub decode_done : Done → Decoded A
  decode_done (failure e) = wrong e
  decode_done (response resp) = decode_response resp

  -- The `do` and the `decodeResponse` of a call.
  unfoldable pub call : (String → String) → (ℕ → Attempt) → ℕ → Client → Option (Decoded A)
  unfolding do_request decode_response
  call sha256 world fuel c = elim (do_request sha256 world fuel 0 c) [
    | none ↦ none
    | some done ↦ some (decode_done done)
  ]
