-- ===== src/Groww/Client/Retries.antt =====
-- src/pkg/groww/client.go: how often `do` tries again.
use mathlib.Core.Path.{subst}
use navier_stocks.Base.{
  ℕ, zero, suc, ◌+◌, ◌<◌, ◌≡◌, refl, ap, ◌∙◌, ◌⊎◌, inl, inr, Bool, true, false, Option, none, some,
  String, arith, ◌==◌, Option-cases,
}
use navier_stocks.Base.Try.{Try, ok, err}
use navier_stocks.Base.Text.{is_empty, concat, decimal_text}
use navier_stocks.Groww.Errors.{GrowwError}
use navier_stocks.Groww.Client.{
  Response, Client, Attempt, set_token, refresh_token, Round, has_keys, round, Done, response,
  failure, settle, do_request, after_sent, after_refresh,
}

-- The server refuses the request whatever the token, and the token endpoint gives a new one.
pub record Refuses (a : Attempt) : Type 0 where
  pub marshalled : a.marshalled ≡ none
  pub built : a.built ≡ none
  pub body : Try String
  pub sent : (token : String) → a.sent token ≡ ok (record { status = 401; body = body })
  pub closed : a.closed ≡ none
  pub tokens_built : a.tokens.built ≡ none
  pub tokens_body : Try String
  pub tokens_sent :
      (ts sum : String) → a.tokens.sent ts sum ≡ ok (record { status = 200; body = tokens_body })
  pub token : String
  pub decoded : a.tokens.decoded ≡ ok token
  pub named : is_empty token ≡ false

module _ (sha256 : String → String) where
  refresh_token-Refuses :
      (a : Attempt) (r : Refuses a) (c : Client)
      → refresh_token sha256 a.tokens c ≡ (none, set_token r.token c)
  unfolding refresh_token
  refresh_token-Refuses a r c = simp (
    r.tokens_built,
    r.tokens_sent (decimal_text a.tokens.unix)
        (sha256 (concat c.api_secret (decimal_text a.tokens.unix))),
    r.decoded,
    r.named,
  )

  round-Refuses :
      (a : Attempt) (r : Refuses a) (c : Client)
      → has_keys c ≡ true
      → round sha256 a c ≡ Round.again (set_token r.token c)
  unfolding round
  round-Refuses a r c keys =
      simp (r.marshalled, r.built, r.sent c.token, keys, r.closed)
        (ap after_refresh (refresh_token-Refuses a r c))

  -- `do` has no bound on its retries: while the server refuses every new token, a client with keys goes
  -- on forever, and no number of rounds makes it return.
  pub do_request_endless :
      (world : ℕ → Attempt) (fuel n : ℕ) (c : Client)
      → ((i : ℕ) → Refuses (world i))
      → has_keys c ≡ true
      → do_request sha256 world fuel n c ≡ none
  unfolding do_request
  do_request_endless world zero n c refuses keys = refl
  do_request_endless world (suc fuel) n c refuses keys =
      ap (settle (do_request sha256 world fuel (suc n)))
        (round-Refuses (world n) (refuses n) c keys)
      ∙ do_request_endless world fuel (suc n) (set_token (refuses n).token c) refuses keys

  abbrev pub is_unauthorized : Try Response → Bool
  is_unauthorized (err message) = false
  is_unauthorized (ok resp) = resp.status == 401

  -- The server does not refuse the request as unauthorized, whatever the token.
  abbrev pub Accepts : Attempt → Type 0
  Accepts a = (token : String) → is_unauthorized (a.sent token) ≡ false

  abbrev IsEnd : Round → Type 0
  IsEnd r = (d : Done) × ((more : Client → Option Done) → settle more r ≡ some d)

  after_sent-IsEnd :
      (a : Attempt) (answer : Try Response) (c : Client)
      → is_unauthorized answer ≡ false
      → IsEnd (after_sent sha256 a answer c)
  after_sent-IsEnd a (err message) c h = (failure (GrowwError.not_sent message), λ more. refl)
  after_sent-IsEnd a (ok resp) c h = (response resp, λ more. rw h refl)

  round-IsEnd : (a : Attempt) (c : Client) → Accepts a → IsEnd (round sha256 a c)
  unfolding round
  round-IsEnd a c accepts = elim (Option-cases a.marshalled) [
    | inr (message, e) ↦ simp e (failure (GrowwError.not_marshalled message), λ more. refl)
    | inl none_m ↦ elim (Option-cases a.built) [
      | inr (message, e) ↦ simp (none_m, e) (failure (GrowwError.not_built message), λ more. refl)
      | inl none_b ↦ simp (none_m, none_b) (after_sent-IsEnd a (a.sent c.token) c (accepts c.token))
    ]
  ]

  Round-cases : (r : Round) → IsEnd r ⊎ ((c : Client) × (r ≡ Round.again c))
  Round-cases (Round.ended resp) = inl (response resp, λ more. refl)
  Round-cases (Round.failed e) = inl (failure e, λ more. refl)
  Round-cases (Round.again c) = inr (c, refl)

  ends :
      (world : ℕ → Attempt) (n : ℕ) (c : Client) (d : Done)
      → ((more : Client → Option Done) → settle more (round sha256 (world n) c) ≡ some d)
      → (fuel : ℕ) → 0 < fuel
      → do_request sha256 world fuel n c ≡ some d
  unfolding do_request
  ends world n c d h zero f = absurd (omega (arith, f))
  ends world n c d h (suc fuel) f = h (do_request sha256 world fuel (suc n))

  goes_on :
      (world : ℕ → Attempt) (k n : ℕ) (c c' : Client) (d : Done)
      → round sha256 (world n) c ≡ Round.again c'
      → ((fuel : ℕ) → k < fuel → do_request sha256 world fuel (suc n) c' ≡ some d)
      → (fuel : ℕ) → suc k < fuel
      → do_request sha256 world fuel n c ≡ some d
  unfolding do_request
  goes_on world k n c c' d e h zero f = absurd (omega (arith, f))
  goes_on world k n c c' d e h (suc fuel) f =
      ap (settle (do_request sha256 world fuel (suc n))) e ∙ h fuel (omega (arith, f))

  returns_from :
      (world : ℕ → Attempt) (k n : ℕ) (c : Client)
      → Accepts (world (n + k))
      → (d : Done) × ((fuel : ℕ) → k < fuel → do_request sha256 world fuel n c ≡ some d)
  returns_from world zero n c accepts =
      let same : n + 0 ≡ n = omega arith in
      let (d, h) = round-IsEnd (world n) c (rw same at accepts) in (d, ends world n c d h)
  returns_from world (suc k) n c accepts = elim (Round-cases (round sha256 (world n) c)) [
    | inl (d, h) ↦ (d, λ fuel f. ends world n c d h fuel (omega (arith, f)))
    | inr (c', e) ↦
        let later : n + suc k ≡ suc n + k = omega arith in
        let (d, h) = returns_from world k (suc n) c' (rw later at accepts) in
        (d, goes_on world k n c c' d e h)
  ]

  -- If the server does not answer 401 in some round, whatever the token, `do` returns: every number
  -- of rounds beyond that one gives the same answer.
  pub do_request_returns :
      (world : ℕ → Attempt) (k : ℕ) (c : Client)
      → Accepts (world k)
      → (d : Done) × ((fuel : ℕ) → k < fuel → do_request sha256 world fuel 0 c ≡ some d)
  do_request_returns world k c accepts =
      let same : k ≡ 0 + k = omega arith in
      returns_from world k 0 c (subst (λ i. Accepts (world i)) same accepts)
