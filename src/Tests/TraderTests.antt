-- ===== src/Tests/TraderTests.antt =====
-- The Trader Gateway at concrete inputs.
use navier_stocks.Base.{◌+◌, ◌≡◌, refl, none, some, [], ◌∷◌}
use navier_stocks.Base.Text.{decimal_text}
use navier_stocks.Float.Fixed.{Fixed, fixed_float}
use navier_stocks.Models.{Side, TradeExecution, validate_position, reason_stop_loss}
use navier_stocks.Clock.{is_opening_buffer, is_closing_cutoff}
use navier_stocks.Database.{driver}
use navier_stocks.Database.Positions.{has_ref, open_rows, list_open}
use navier_stocks.Trader.{Fill, ExecuteError}
use navier_stocks.Trader.PaperTrader.{Ledger, is_closing, pos_from_exec, execute, fill_at}
use navier_stocks.Trader.PaperTrader.Opening.{
  no_faults, with_position, opened_by, execute_opens, redelivery_skips_log,
}
use navier_stocks.Trader.PaperTrader.Ledgers.{IsLedger}
use navier_stocks.Trader.Gateway.{ack, handle_execution}
use navier_stocks.Trader.Gateway.Delivery.{deliver_all, deliver_all-IsLedger, risk_execution_opens}
use navier_stocks.Trader.ExitMonitor.{World, crossed, exit_order, evaluate, refresh}
use navier_stocks.Trader.ExitMonitor.Marks.{evaluate_quiet}
use navier_stocks.Trader.ExitMonitor.Hits.{rows_of, hits}
use navier_stocks.Trader.ExitMonitor.Exits.{Mirrors, orders_onto}
use navier_stocks.Trader.ExitMonitor.Ticks.{Exits, evaluate-Exits}
use navier_stocks.Trader.ExitMonitor.Failures.{refresh-Mirrors}
use navier_stocks.Trader.ExitMonitor.Recovery.{refused_then_closed, unmarked_repeats, IsTrading}
use navier_stocks.Tests.Fixtures.{
  amount, tcs_long, two_rows, two_rows-IsTable, eleven, closing_time, india, tcs_intent, link_up,
  link_down,
}
use navier_stocks.Tests.RiskTests.{tcs_exec, build_execution_run, valid_intent}

abbrev empty_ledger : Ledger Fixed
empty_ledger = record { table = record { rows = []; next_id = 1 }; log = [] }

empty-IsLedger : IsLedger empty_ledger
empty-IsLedger = record { keyed = record { keyed = tt; unique = tt }; valid = tt }

risk_execution_opens_example :
    (handle_execution (execute no_faults 8) (some tcs_exec) empty_ledger
      ≡ (ack, opened_by tcs_exec empty_ledger))
    × (handle_execution (execute no_faults 9) (some tcs_exec) (opened_by tcs_exec empty_ledger)
        ≡ (ack, opened_by tcs_exec empty_ledger))
unfolding has_ref pos_from_exec fixed_float
risk_execution_opens_example =
    risk_execution_opens (amount 10_000_000_000) "IT" 7 8 9 tcs_intent tcs_exec empty_ledger
      valid_intent refl build_execution_run refl refl refl

execute_opens_example :
    (execute no_faults 8 tcs_exec empty_ledger
      ≡ (fill_at tcs_exec (decimal_text 8), opened_by tcs_exec empty_ledger))
    × (execute no_faults 9 tcs_exec (opened_by tcs_exec empty_ledger)
        ≡ (fill_at tcs_exec "dup", opened_by tcs_exec empty_ledger))
unfolding has_ref pos_from_exec fixed_float is_closing validate_position
execute_opens_example = execute_opens 8 9 tcs_exec empty_ledger refl refl refl

redelivery_skips_log_example :
    (execute (record no_faults { on_log = some "timeout" }) 8 tcs_exec empty_ledger ≡ (
      Fill.rejected (ExecuteError.log_failed (driver "timeout")),
      with_position tcs_exec empty_ledger,
    ))
    × (execute no_faults 9 tcs_exec (with_position tcs_exec empty_ledger)
        ≡ (fill_at tcs_exec "dup", with_position tcs_exec empty_ledger))
unfolding has_ref pos_from_exec fixed_float is_closing validate_position
redelivery_skips_log_example =
    redelivery_skips_log "timeout" 8 9 tcs_exec empty_ledger refl refl refl

abbrev tcs_exit : TradeExecution Fixed
tcs_exit = exit_order tcs_long reason_stop_loss (amount 900_000) 8

deliver_all-IsLedger_example :
    IsLedger (deliver_all ((no_faults, 8, some tcs_exec) ∷ (no_faults, 9, none) ∷ []) empty_ledger)
deliver_all-IsLedger_example =
    deliver_all-IsLedger ((no_faults, 8, some tcs_exec) ∷ (no_faults, 9, none) ∷ []) empty_ledger
      empty-IsLedger

-- The monitor after a refresh.
abbrev watching : World Fixed
watching = record {
  monitor = (refresh none two_rows (record { cache = []; in_flight = [] })).1;
  table = two_rows;
  sent = [];
}

watching-Mirrors : Mirrors watching
watching-Mirrors =
    let (_, _, m) =
      refresh-Mirrors
        (record { monitor = record { cache = []; in_flight = [] }; table = two_rows; sent = [] }) in
    m

eleven-IsTrading : IsTrading india eleven
unfolding is_opening_buffer is_closing_cutoff
eleven-IsTrading = (refl, refl)

evaluate-Exits_example :
    Exits "TCS" eleven
      (amount 900_000)
      watching
      (evaluate india link_up (λ id. none) eleven "TCS" (amount 900_000) watching)
unfolding refresh list_open is_opening_buffer is_closing_cutoff
evaluate-Exits_example =
    evaluate-Exits india link_up (λ id. none) eleven "TCS" (amount 900_000) watching
      two_rows-IsTable watching-Mirrors (λ j. refl) (λ subject order. refl) (λ id. refl) refl refl

refused_then_closed_example : Exits "TCS" (eleven + 1) (amount 940_000) watching (
    evaluate india link_up
      (λ id. none)
      (eleven + 1)
      "TCS"
      (amount 940_000)
      (evaluate india link_down (λ id. none) eleven "TCS" (amount 900_000) watching))
unfolding refresh list_open is_opening_buffer is_closing_cutoff
refused_then_closed_example =
    refused_then_closed india link_down link_up (λ id. none) (λ id. none) eleven (eleven + 1) "TCS"
      "TCS" (amount 900_000) (amount 940_000) watching "timeout" two_rows-IsTable watching-Mirrors
      (λ j. refl) (λ subject order. refl) eleven-IsTrading (λ subject order. refl) (λ id. refl)
      (refl, refl)

unmarked_repeats_example :
    let w' = evaluate india link_up (λ id. some "timeout") eleven "TCS" (amount 900_000) watching in
    let rows = rows_of "TCS" (open_rows two_rows.rows) in
    (evaluate india link_up
      (λ id. none)
      (eleven + 1)
      "TCS"
      (amount 940_000)
      (record w' { monitor = (refresh none w'.table w'.monitor).1 })).sent
    ≡ orders_onto
        (eleven + 1)
        (amount 940_000)
        (hits (amount 940_000) rows)
        (orders_onto eleven (amount 900_000) (hits (amount 900_000) rows) [])
unfolding refresh list_open is_opening_buffer is_closing_cutoff
unmarked_repeats_example =
    unmarked_repeats india link_up (λ id. some "timeout") (λ id. none) eleven (eleven + 1) "TCS"
      (amount 900_000) (amount 940_000) watching "timeout" two_rows-IsTable watching-Mirrors
      (λ j. refl) (λ subject order. refl) (λ id. refl) eleven-IsTrading (λ id. refl) (refl, refl)

-- The position is closed on either tick, so its order goes out twice.
hits_run :
    hits (amount 900_000) (rows_of "TCS" (open_rows two_rows.rows))
    ≡ (tcs_long, reason_stop_loss) ∷ []
unfolding crossed fixed_float
hits_run = refl

evaluate_quiet_example :
    evaluate india link_up (λ id. none) closing_time "TCS" (amount 900_000) watching ≡ watching
unfolding is_opening_buffer is_closing_cutoff
evaluate_quiet_example =
    evaluate_quiet india link_up (λ id. none) closing_time "TCS" (amount 900_000) watching refl

-- A short sale that leaves both boundaries to the paper trader.
abbrev bare_short : TradeExecution Fixed
bare_short = record tcs_exec { side = Side.short; stop_loss = amount 0; take_profit = amount 0 }
