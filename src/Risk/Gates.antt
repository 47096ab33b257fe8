-- ===== src/Risk/Gates.antt =====
-- src/analysts/riskmanager: the gates without state of their own, bias.go (Gate 3), timeguard.go and
-- sentiment.go.
pub mod Balance
use navier_stocks.Base.{
  ℕ, suc, Bool, true, false, ◌&&◌, Option, none, some, String, ltb, if◌then◌else◌,
}
use navier_stocks.Base.Int.{ℤ, pos}
use navier_stocks.Float.{Float64, nought}
use navier_stocks.Models.{Side, SentimentScore, is_short}
use navier_stocks.Clock.{is_opening_buffer, is_closing_cutoff}
use navier_stocks.Risk.{Refusal, Fetched, fetch_failed, absent, found}
use navier_stocks.Risk.Exposure.{Exposure}

-- `timeWindowGuard`; the first argument is what loading the Indian time zone answers.
unfoldable pub time_window_guard : Option ℕ → ℕ → Option Refusal
time_window_guard loc now =
    if is_opening_buffer loc now
    then some Refusal.opening_buffer
    else if is_closing_cutoff loc now
    then some Refusal.closing_cutoff
    else none

-- The counts after the entry that is asked for.
abbrev pub candidate_longs : ℕ → Side → ℕ
candidate_longs longs side = if is_short side then longs else suc longs

abbrev pub candidate_shorts : ℕ → Side → ℕ
candidate_shorts shorts side = if is_short side then suc shorts else shorts

module _ {F : Type 0} ⦃fl : Float64 F⦄ where
  -- The two comparisons of `CheckBias`, made when both candidates are positive.
  beyond_ratio : F → ℕ → ℕ → Bool
  beyond_ratio ratio longs shorts =
      if fl.lt (fl.mul ratio (fl.of_int (pos shorts))) (fl.of_int (pos longs))
      then true
      else fl.lt (fl.mul ratio (fl.of_int (pos longs))) (fl.of_int (pos shorts))

  unfoldable pub check_bias : ℕ → ℕ → Side → F → Option Refusal
  unfolding beyond_ratio
  check_bias longs shorts side max_ratio =
      let l = candidate_longs longs side in
      let s = candidate_shorts shorts side in
      if ltb 0 l && ltb 0 s && beyond_ratio max_ratio l s then some Refusal.bias_limit else none

  -- `(*Exposure).BiasGate`
  unfoldable pub bias_gate : Exposure F → Side → Option Refusal
  bias_gate e side = check_bias e.longs e.shorts side e.max_bias

  -- The answer of `SentimentGateRaw` to what the store returned.
  abbrev pub judge_score : Fetched (SentimentScore F) → F → Option Refusal
  judge_score (fetch_failed message) floor = some (Refusal.store_failed message)
  judge_score absent floor = some Refusal.sentiment_missing
  judge_score (found score) floor =
      if fl.lt score.confidence floor then some Refusal.sentiment_low_confidence else none

  -- `SentimentGateRaw`; with no store the gate is off.
  unfoldable pub sentiment_gate :
      Option (String → Fetched (SentimentScore F)) → String → F → Option Refusal
  sentiment_gate none ticker floor = none
  sentiment_gate (some latest_score) ticker floor = judge_score (latest_score ticker) floor
