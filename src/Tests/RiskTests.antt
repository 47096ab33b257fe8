-- ===== src/Tests/RiskTests.antt =====
-- The risk manager at concrete inputs.
use navier_stocks.Base.{◌≡◌, ◌*◌, ◌⊎◌, ◌==◌, refl, arith, true, none, some, [], ◌∷◌, if◌then◌else◌}
use navier_stocks.Base.Int.{pos, ◌+ℤ◌, ◌-ℤ◌, ◌*ℤ◌, ◌/ℤ◌}
use navier_stocks.Base.Text.{decimal_text}
use navier_stocks.Base.Dict.{lookup}
use navier_stocks.Float.Fixed.{Fixed, fixed_float}
use navier_stocks.Models.{Side, TradeExecution, validate_intent}
use navier_stocks.Clock.{ist, day_of, time_of_day}
use navier_stocks.Database.Positions.{open_rows}
use navier_stocks.Risk.Exposure.{new_exposure, entry_gate, register, refresh_from_db}
use navier_stocks.Risk.Exposure.Ceilings.{
  Reach, here, next, enter, Within, Reach-Within, refresh_forgets,
}
use navier_stocks.Risk.Allocator.{calculate_quantity_pct, calculate_quantity, stop_loss_for}
use navier_stocks.Risk.Executor.{build_execution, calculate_take_profit}
use navier_stocks.Risk.Agent.{Agent, ack, nak_with_delay, handle_intent, second, new_agent}
use navier_stocks.Risk.Agent.Pipeline.{Fate, handle_intent-Fate}
use navier_stocks.Risk.Agent.Guarantees.{Promoted, Kept, handle_intent_sound, handle_intent-Within}
use navier_stocks.Risk.SquareOff.{Faults, square_off}
use navier_stocks.Risk.SquareOff.Liquidation.{survivors, is_nil, square_off-survivors}
use navier_stocks.Tests.Fixtures.{
  amount, tcs_long, two_rows, two_rows-IsTable, eleven, closing_time, india, tcs_intent, link_up,
  agent, tracker,
}

handle_intent-Fate_example :
    let r = handle_intent india eleven 7 (some tcs_intent) agent in
    Fate india eleven 7 agent (some tcs_intent) r.0 r.1
unfolding new_agent
handle_intent-Fate_example = handle_intent-Fate india eleven 7 (some tcs_intent) agent link_up refl

handle_intent_sound_example :
    let r = handle_intent india eleven 7 (some tcs_intent) agent in
    ((r.0 ≡ agent) × ((r.1 ≡ ack) ⊎ (r.1 ≡ nak_with_delay (5 * second))))
    ⊎ Promoted india eleven 7 (some tcs_intent) agent (r.0, r.1)
unfolding new_agent
handle_intent_sound_example =
    handle_intent_sound india eleven 7 (some tcs_intent) agent link_up refl

empty-Within : Within 1 4 tracker []
empty-Within = Reach-Within 1 4 (omega arith) here

handle_intent-Within_example :
    Kept agent
      (some tcs_intent)
      1
      4
      []
      (handle_intent india eleven 7 (some tcs_intent) agent).0.exposure
unfolding new_agent
handle_intent-Within_example =
    handle_intent-Within india eleven 7 (some tcs_intent) agent link_up tracker [] 1 4 refl refl
      empty-Within

one_entry : Reach tracker [] (register tracker Side.long "IT") ((Side.long, "IT") ∷ [])
unfolding new_exposure entry_gate lookup
one_entry = next here (enter tracker [] Side.long "IT" refl)

Reach-Within_example : Within 1 4 (register tracker Side.long "IT") ((Side.long, "IT") ∷ [])
Reach-Within_example = Reach-Within 1 4 (omega arith) one_entry

refresh_forgets_example :
    let e' = refresh_from_db (register tracker Side.long "IT") [] in
    (entry_gate e' "IT" ≡ none) × (e'.total ≡ 0)
unfolding new_exposure
refresh_forgets_example =
    refresh_forgets tracker [] Side.long "IT" (omega arith) (omega arith) (omega arith)

-- The execution of the intent: 2 % of the capital over a risk of 5.00 a share.
abbrev pub tcs_exec : TradeExecution Fixed
tcs_exec = record {
  ticker = "TCS";
  side = Side.long;
  quantity = pos 4_000;
  price = amount 1_000_000;
  stop_loss = amount 950_000;
  take_profit = amount 1_100_000;
  sector = "IT";
  signal_reason = "VWAP_breakout_plus_volume_plus_BB";
  execution_ref = "risk-TCS-7";
  position_id = 0;
}

pub build_execution_run : build_execution (amount 10_000_000_000) "IT" 7 tcs_intent ≡ some tcs_exec
unfolding build_execution calculate_quantity calculate_quantity_pct calculate_take_profit
    stop_loss_for fixed_float ◌+ℤ◌ ◌-ℤ◌ ◌*ℤ◌ ◌/ℤ◌ decimal_text
build_execution_run = refl

pub valid_intent : validate_intent tcs_intent ≡ none
unfolding validate_intent fixed_float
valid_intent = refl

abbrev wired : Agent Fixed
wired = record agent { positions_wired = true }

-- The store fails to close the position 1.
abbrev one_fault : Faults
one_fault = record { on_list = none; on_close = λ id. if id == 1 then some "timeout" else none }

square_off-survivors_example :
    let r = square_off india one_fault closing_time wired two_rows in
    let left = survivors wired one_fault closing_time (open_rows two_rows.rows) in
    (open_rows r.1.rows ≡ left)
    × (r.0.sq_done ≡ (if is_nil left then some (day_of ist closing_time) else wired.sq_done))
unfolding new_agent time_of_day day_of
square_off-survivors_example =
    square_off-survivors ist one_fault closing_time wired two_rows two_rows-IsTable refl refl refl
      refl

square_off-survivors_run :
    survivors wired one_fault closing_time (open_rows two_rows.rows) ≡ tcs_long ∷ []
unfolding new_agent
square_off-survivors_run = refl
