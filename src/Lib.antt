-- ===== src/Lib.antt =====
-- Navier-Stocks, an intraday paper-trading system of agents that talk over NATS subjects: the scout
-- turns market ticks into trade intents, the risk manager turns intents into executions, and the
-- trader turns executions into positions and positions into closing executions. A sentiment analyst
-- scores news by a language model; a client of the broker's REST interface stands beside them.
--
-- The parts, with the code that each models:
--   Base     the shared names: lists on native numbers, Go's signed integers, strings and maps
--   Float    float64 as an interface, with laws of IEEE 754 as records of hypotheses; Float.Fixed is
--            a concrete decimal instance for tests
--   Models   src/pkg/models: the payloads and rows, and their Validate methods
--   Nats     src/pkg/nats: the streams, and the guards of publishing and subscribing
--   Clock    src/pkg/utils/time.go: the windows of the Indian market day
--   Database src/pkg/database/positions.go, trade_log.go and sentiment.go (Scores): the tables behind
--            the stores
--   Statistics src/pkg/math/math.go
--   Scout    src/analysts/quantitative: TickStore (ring buffer), TickerStore (one buffer a symbol)
--            and Candles of tickstore.go, Indicators of the package indicators, Breakout of
--            breakout.go, Universe of universe.go and Feed of feed.go
--   Groww    src/pkg/groww: Client (do, refreshToken and decodeResponse), Limiter (the token bucket),
--            Errors, References and Requests (order.go, live.go, margin.go, historical.go), and the
--            payloads of types.go in Types, OrderTypes, DataTypes and FeedTypes;
--            Feed is the WebSocket client of feed.go, Instruments the list of instrument.go, History
--            the candles of historical.go
--   Recorder src/analysts/recorder: the daily archive of store.go, whose files are bytes; Base.Scan
--            splits them into lines as bufio.ScanLines does
--   Sentiment src/analysts/sentiment: Scraper of scraper.go, Llm and Fences of llm.go, and Analyst of
--            agent.go
--   Risk     src/analysts/riskmanager: Exposure, Gates, Allocator, Executor, Agent and SquareOff, a
--            module for each file (Gates for bias.go, timeguard.go and sentiment.go)
--   Trader   src/analysts/trader: PaperTrader, Gateway (agent.go) and ExitMonitor
--   Replay   src/pkg/replay/engine.go: LoadTicks, Plan and Run
--   Report   src/pkg/database/report.go: ComputeSummary
--   Tests    runs on concrete inputs
--
-- How the code is read. A method with a receiver takes its state as an argument and returns the new
-- one, under the method's name in snake_case (`handleIntent` is `handle_intent`). Work under a lock is
-- one step. A Go int or int64 is an integer whose sums are wrapped where they can overflow
-- (Base.Int.wrap64); counters and lengths are natural numbers. Times are nanoseconds since the Unix
-- epoch, and what time.LoadLocation answers is an argument. The decoding of a message is
-- encoding/json's, so a handler is given the decoded value or `none`. A link answers a publish with
-- an error or none; the PostgreSQL driver's errors are arguments of each call. Loops over lists need
-- no fuel. Base.Text.decimal_text has fuel for 19 digits, which hold every int64; the square root of
-- Float.Fixed is for tests only. Groww.Client.do_request counts the rounds of the recursion of `do`,
-- which has no bound of its own: `none` says that it is still retrying. An HTTP server, JSON, SHA-256
-- and the language model are functions that a caller gives.
--
-- How the parts meet. Risk.Executor builds what Trader.Gateway validates and Trader.PaperTrader
-- stores; Risk.SquareOff and Trader.ExitMonitor close rows of Database.Positions and send the
-- closing orders that Trader.PaperTrader only logs. Scout.Feed fills the tick stores that
-- Scout.Breakout reads, by the tokens of Scout.Universe, whose sector map Risk.Agent takes.
-- Sentiment.Analyst stores in Database.Scores the scores that Risk.Gates reads. Interleavings of
-- the agents are sequences of such steps; data races inside one agent are not modelled.
--
-- Not modelled: the connections to NATS, PostgreSQL and the broker with their goroutines, tickers and
-- shutdown, which are I/O, and the tools.
pub mod Base
pub mod Float
pub mod Models
pub mod Nats
pub mod Clock
pub mod Statistics
pub mod Database
pub mod Groww
pub mod Recorder
pub mod Risk
pub mod Scout
pub mod Trader
pub mod Sentiment
pub mod Replay
pub mod Report
pub mod Tests
