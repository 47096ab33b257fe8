-- ===== src/Tests/GrowwTests.antt =====
-- The broker's client at concrete inputs.
use navier_stocks.Base.{
  ℕ, zero, suc, ◌<◌, ◌≡◌, refl, true, none, some, List, [], ◌∷◌, String, arith, map,
}
use navier_stocks.Base.Int.{ℤ, pos, ◌+ℤ◌, ◌-ℤ◌, ◌*ℤ◌, ◌/ℤ◌}
use navier_stocks.Base.Try.{ok}
use navier_stocks.Base.Text.{size, decimal_text}
use navier_stocks.Float.Fixed.{Fixed, fixed_float, Fixed-IsExact, Fixed-IsCounting}
use navier_stocks.Models.{TradeExecution}
use navier_stocks.Risk.Executor.{build_execution, calculate_take_profit}
use navier_stocks.Groww.Client.{Client, Attempt, Done, has_keys, do_request}
use navier_stocks.Groww.Client.Retries.{Refuses, do_request_endless, do_request_returns}
use navier_stocks.Groww.Limiter.{RateLimiter, wait}
use navier_stocks.Groww.Limiter.Burst.{all_pass, wait_burst}
use navier_stocks.Groww.References.{Bytes, max_len, parse_order_reference_id}
use navier_stocks.Groww.References.Shape.{IsReference, parse_order_reference_id-IsReference}
use navier_stocks.Groww.Requests.{place_order_request_from_trade_execution}
use navier_stocks.Groww.Requests.Executions.{after_2001, place_order_request_too_long}
use navier_stocks.Groww.Instruments.{parse_instruments}
use navier_stocks.Groww.Instruments.Columns.{
  has_column, records, read_instrument, parse_instruments-records,
}
use navier_stocks.Tests.Fixtures.{amount, tcs_intent}
use navier_stocks.Risk.Allocator.{calculate_quantity_pct, calculate_quantity, stop_loss_for}
use navier_stocks.Tests.RiskTests.{tcs_exec}

abbrev digest : String → String
digest text = "checksum"

abbrev expired : Attempt
expired = record {
  marshalled = none;
  built = none;
  sent = λ token. ok (record { status = 401; body = ok "" });
  closed = none;
  tokens = record {
    unix = 5;
    built = none;
    sent = λ stamp sum. ok (record { status = 200; body = ok "{}" });
    decoded = ok "t2";
  };
}

abbrev fine : Attempt
fine = record expired { sent = λ token. ok (record { status = 200; body = ok "{}" }) }

-- The token is refused once.
abbrev one_refusal : ℕ → Attempt
one_refusal zero = expired
one_refusal (suc n) = fine

abbrev client : Client
client = record { token = "t1"; api_key = "key"; api_secret = "secret" }

expired-Refuses : Refuses expired
expired-Refuses = record {
  marshalled = refl;
  built = refl;
  body = ok "";
  sent = λ token. refl;
  closed = refl;
  tokens_built = refl;
  tokens_body = ok "{}";
  tokens_sent = λ stamp sum. refl;
  token = "t2";
  decoded = refl;
  named = refl;
}

client-has_keys : has_keys client ≡ true
client-has_keys = refl

do_request_endless_example : do_request digest (λ n. expired) 50 0 client ≡ none
do_request_endless_example =
    do_request_endless digest (λ n. expired) 50 0 client (λ n. expired-Refuses) client-has_keys

do_request_returns_example :
    (d : Done) × ((fuel : ℕ) → 1 < fuel → do_request digest one_refusal fuel 0 client ≡ some d)
do_request_returns_example = do_request_returns digest one_refusal 1 client (λ token. refl)

abbrev drained : RateLimiter Fixed
drained = record { tokens = amount 5_000; max_rate = amount 100_000; last_tick = 0 }

wait_burst_example : all_pass 9 50_000_000 (wait 0 50_000_000 drained).1 ≡ true
unfolding fixed_float
wait_burst_example =
    wait_burst Fixed-IsExact Fixed-IsCounting 10 0 50_000_000 drained refl (omega arith)
      (omega arith) refl

abbrev long_reference : Bytes
long_reference = b'r' ∷ b'-' ∷ b'M' ∷ b'&' ∷ b'M' ∷ b'-' ∷ b'1' ∷ b'-' ∷ b'2' ∷ []

parse_order_reference_id-IsReference_example :
    IsReference (parse_order_reference_id long_reference)
    × (parse_order_reference_id (parse_order_reference_id long_reference)
        ≡ parse_order_reference_id long_reference)
parse_order_reference_id-IsReference_example = parse_order_reference_id-IsReference long_reference

-- The execution of the intent at 10^18 nanoseconds.
abbrev tcs_late : TradeExecution Fixed
tcs_late = record tcs_exec { execution_ref = "risk-TCS-1000000000000000000" }

build_execution_late :
    build_execution (amount 10_000_000_000) "IT" after_2001 tcs_intent ≡ some tcs_late
unfolding build_execution calculate_quantity calculate_quantity_pct calculate_take_profit
    stop_loss_for fixed_float ◌+ℤ◌ ◌-ℤ◌ ◌*ℤ◌ ◌/ℤ◌ decimal_text
build_execution_late = refl

place_order_request_too_long_example :
    max_len < size (place_order_request_from_trade_execution tcs_late).order_reference_id
place_order_request_too_long_example =
    place_order_request_too_long (amount 10_000_000_000) "IT" after_2001 tcs_intent tcs_late
      (omega arith) build_execution_late

abbrev columns : List String
columns =
    "segment" ∷ "trading_symbol" ∷ "exchange" ∷ "comment" ∷ "exchange_token" ∷ "instrument_type"
    ∷ []

-- An instrument that has the name of each column in it.
abbrev named : String → String
named column = column

abbrev one_number : String → ℤ
one_number text = pos 1

abbrev one_amount : String → Fixed
one_amount text = amount 500

parse_instruments-records_example :
    parse_instruments one_number one_amount (ok columns) (records columns (named ∷ named ∷ []))
    ≡ ok (map (read_instrument one_number one_amount columns) (named ∷ named ∷ []))
unfolding has_column
parse_instruments-records_example =
    parse_instruments-records one_number one_amount columns (named ∷ named ∷ [])
      (refl, (refl, (refl, (refl, (refl, tt)))))
