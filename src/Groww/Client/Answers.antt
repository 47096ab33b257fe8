-- ===== src/Groww/Client/Answers.antt =====
-- src/pkg/groww/client.go: what a call answers to an unsuccessful response.
use navier_stocks.Base.{
  ℕ, suc, ◌≡◌, refl, ap, ◌∙◌, inl, inr, false, Option, none, some, String, arith, ◌==◌, Bool-cases,
}
use navier_stocks.Base.Try.{Try, ok}
use navier_stocks.Base.Text.{is_empty}
use navier_stocks.Groww.Errors.{ApiError, GrowwError, api, is_rate_limited, is_auth_expired}
use navier_stocks.Groww.Client.{
  Client, Attempt, has_keys, round, Done, response, do_request, wrong, Json, api_error,
  decode_error, decode_response, decode_done, is_success, call, settle, Round, http_text,
}

-- A request that is sent, and answered by a response whose body can be read.
pub record Answers (a : Attempt) (token : String) (status : ℕ) (raw : String) : Type 0 where
  pub marshalled : a.marshalled ≡ none
  pub built : a.built ≡ none
  pub sent : a.sent token ≡ ok (record { status = status; body = ok raw })

-- The error of an unsuccessful status.
pub record Complains (status : ℕ) (e : GrowwError) : Type 0 where
  pub error : ApiError
  pub wrapped : e ≡ api error
  pub same_status : error.http_status ≡ status
  pub auth : is_auth_expired e ≡ (status == 401)
  pub rate : is_rate_limited e ≡ (status == 429)

api-Complains : (error : ApiError) → Complains error.http_status (api error)
unfolding is_auth_expired is_rate_limited
api-Complains error = record {
  error = error;
  wrapped = refl;
  same_status = refl;
  auth = ground arith;
  rate = ground arith;
}

api_error-Complains :
    (status : ℕ) (complaint : Option (String × String))
    → Complains status (api_error status complaint)
api_error-Complains status none =
    api-Complains (record { http_status = status; code = ""; message = http_text status })
api_error-Complains status (some (code, message)) = elim (Bool-cases (is_empty message)) [
  | inl blank ↦
      rw blank
        (api-Complains (record { http_status = status; code = ""; message = http_text status }))
  | inr named ↦
      rw named (api-Complains (record { http_status = status; code = code; message = message }))
]

module _ {A : Type 0} (json : Json) (payload : String → Try A) (zero_value : A)
    (sha256 : String → String) where
  round-Answers :
      (a : Attempt) (c : Client) (status : ℕ) (raw : String)
      → has_keys c ≡ false
      → Answers a c.token status raw
      → round sha256 a c ≡ Round.ended (record { status = status; body = ok raw })
  unfolding round
  round-Answers a c status raw keys answers = elim (Bool-cases (status == 401)) [
    | inl refused ↦ simp (answers.marshalled, answers.built, answers.sent, keys, refused)
    | inr other ↦ simp (answers.marshalled, answers.built, answers.sent, keys, other)
  ]

  do_request-Answers :
      (world : ℕ → Attempt) (fuel : ℕ) (c : Client) (status : ℕ) (raw : String)
      → has_keys c ≡ false
      → Answers (world 0) c.token status raw
      → do_request sha256 world (suc fuel) 0 c
        ≡ some (response (record { status = status; body = ok raw }))
  unfolding do_request
  do_request-Answers world fuel c status raw keys answers =
      ap (settle (do_request sha256 world fuel 1))
        (round-Answers (world 0) c status raw keys answers)

  decode_response_fails :
      (status : ℕ) (raw : String)
      → is_success status ≡ false
      → decode_response json payload zero_value (record { status = status; body = ok raw })
        ≡ wrong (decode_error json status raw)
  unfolding decode_response
  decode_response_fails status raw fails = rw fails refl

  -- A client without keys makes of a response outside 200 to 299 an error with its status, at once: one
  -- that counts as expired authorization just for 401, and as a rate limit just for 429.
  pub call-Complains :
      (world : ℕ → Attempt) (fuel : ℕ) (c : Client) (status : ℕ) (raw : String)
      → has_keys c ≡ false
      → Answers (world 0) c.token status raw
      → is_success status ≡ false
      → (e : GrowwError) × (call json payload zero_value sha256 world (suc fuel) c ≡ some (wrong e))
        × Complains status e
  unfolding call decode_error
  call-Complains world fuel c status raw keys answers fails = (
    decode_error json status raw,
    ap
          (λ (o : Option Done). elim o [
            | none ↦ none
            | some done ↦ some (decode_done json payload zero_value done)
          ])
          (do_request-Answers world fuel c status raw keys answers)
        ∙ ap some (decode_response_fails status raw fails),
    api_error-Complains status (json.complaint raw),
  )
