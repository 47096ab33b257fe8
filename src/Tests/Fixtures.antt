-- ===== src/Tests/Fixtures.antt =====
-- Test data: two open positions, an intent, links to JetStream, a time of day.
use navier_stocks.Base.{ℕ, refl, arith, Option, none, some, [], ◌∷◌, String}
use navier_stocks.Base.Int.{pos}
use navier_stocks.Float.Fixed.{Fixed, fixed_float}
use navier_stocks.Models.{Side, Position, PositionStatus, TradeIntent}
use navier_stocks.Clock.{ist}
use navier_stocks.Database.Positions.{Table, has_ref}
use navier_stocks.Database.Positions.Lifecycle.{IsTable}
use navier_stocks.Risk.Exposure.{Exposure, new_exposure}
use navier_stocks.Risk.Executor.{Link}
use navier_stocks.Risk.Agent.{Agent, new_agent}

-- An amount in ten-thousandths.
abbrev pub amount : ℕ → Fixed
amount n = record { units = pos n }

abbrev pub tcs_long : Position Fixed
tcs_long = record {
  id = 1;
  ticker = "TCS";
  side = Side.long;
  quantity = pos 10;
  entry_price = amount 1_000_000;
  stop_loss = amount 950_000;
  take_profit = amount 1_100_000;
  sector = "IT";
  status = PositionStatus.opened;
  execution_ref = "risk-TCS-1";
  exit_price = amount 0;
  pnl = amount 0;
  exit_reason = "";
  closed_at = none;
}

abbrev pub ongc_short : Position Fixed
ongc_short = record {
  id = 2;
  ticker = "ONGC";
  side = Side.short;
  quantity = pos 5;
  entry_price = amount 2_000_000;
  stop_loss = amount 2_100_000;
  take_profit = amount 1_800_000;
  sector = "ENERGY";
  status = PositionStatus.opened;
  execution_ref = "risk-ONGC-2";
  exit_price = amount 0;
  pnl = amount 0;
  exit_reason = "";
  closed_at = none;
}

abbrev pub two_rows : Table Fixed
two_rows = record { rows = ongc_short ∷ tcs_long ∷ []; next_id = 3 }

pub two_rows-IsTable : IsTable two_rows
unfolding has_ref
two_rows-IsTable = record { keyed = (omega arith, (omega arith, tt)); unique = (refl, (refl, tt)) }

-- 11:00 on Thursday, 1 January 1970, in India, and 15:20 on that day.
abbrev pub eleven : ℕ
eleven = 19_800_000_000_000

abbrev pub closing_time : ℕ
closing_time = 35_400_000_000_000

abbrev pub india : Option ℕ
india = some ist

abbrev pub tcs_intent : TradeIntent Fixed
tcs_intent = record {
  ticker = "TCS";
  side = Side.long;
  current_price = amount 1_000_000;
  vwap = amount 990_000;
  volume_ratio = amount 25_000;
  signal_reason = "VWAP_breakout_plus_volume_plus_BB";
  timestamp = eleven;
}

abbrev pub link_up : Link Fixed
link_up subject order = none

abbrev pub link_down : Link Fixed
link_down subject order = some "timeout"

abbrev pub sectors : String → String
sectors ticker = "IT"

abbrev pub agent : Agent Fixed
agent = new_agent link_up sectors (amount 5_000) (amount 10_000_000_000)

abbrev pub tracker : Exposure Fixed
tracker = new_exposure 1 4
