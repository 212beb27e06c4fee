-- ===== src/Scheduler/Trades.antt =====
-- What a scheduled trade reports and does.
use gptrader_mw_v.Prelude.{
  ◌≡◌, refl, true, false, String, Option, none, some, Result, ok, err, Error,
}
use gptrader_mw_v.Decimal.{Context}
use gptrader_mw_v.Market.{Datetime}
use gptrader_mw_v.Trade.Journal.{Journal}
use gptrader_mw_v.Trade.Dto.{Ports, ExecuteTradeCommand, ExecuteTradeResult}
use gptrader_mw_v.Trade.Execute.{execute}
use gptrader_mw_v.Trade.Execute.Traces.{Executed, execute-Executed}
use gptrader_mw_v.Scheduler.{Scheduled, succeeded, scheduled, attempt, run_trade_execution}

-- The record holds the answer of the use case: its result, or the error that it raised.
abbrev pub Holds : {C R : Type 0} → Result R → Scheduled C R → Type 0
Holds (ok r) s = (s.result ≡ some r) × (s.error ≡ none) × (succeeded s ≡ true)
Holds (err e) s = (s.result ≡ none) × (s.error ≡ some e) × (succeeded s ≡ false)

-- The record of one run: when and for what command it was, and the answer.
pub record Recorded {C R : Type 0} (name : String) (started finished : Datetime)
    (command : Option C) (answer : Result R) (s : Scheduled C R) : Type 0 where
  pub schedule : s.schedule_name ≡ name
  pub times : (s.started_at ≡ started) × (s.finished_at ≡ finished)
  pub of_command : s.command ≡ command
  pub holds : Holds answer s

scheduled-Recorded :
    {C R : Type 0} (name : String) (started finished : Datetime) (command : Option C)
    (answer : Result R)
    → Recorded name started finished command answer (scheduled name started finished command answer)
scheduled-Recorded name started finished command (ok r) = record {
  schedule = refl;
  times = (refl, refl);
  of_command = refl;
  holds = (refl, refl, refl);
}
scheduled-Recorded name started finished command (err e) = record {
  schedule = refl;
  times = (refl, refl);
  of_command = refl;
  holds = (refl, refl, refl);
}

-- What a scheduled trade comes to.
pub data Outcome ⦃context : Context⦄ (ports : Ports) (name : String) (started finished : Datetime)
    (j : Journal)
    : Result ExecuteTradeCommand
      → Scheduled ExecuteTradeCommand ExecuteTradeResult × Journal
      → Type 0 where
  no_command :
      (e : Error) (s : Scheduled ExecuteTradeCommand ExecuteTradeResult)
      → Recorded name started finished none (err e) s
      → Outcome ports name started finished j (err e) (s, j)
  ran :
      (c : ExecuteTradeCommand) (s : Scheduled ExecuteTradeCommand ExecuteTradeResult)
      (j' : Journal)
      → Recorded name started finished (some c) (execute ports c j).0 s
      → j' ≡ (execute ports c j).1
      → Executed ports c j ((execute ports c j).0, j')
      → Outcome ports name started finished j (ok c) (s, j')

-- A scheduled trade whose factory raised records no command and that error, and makes no call. Else it
-- records the command of the factory and the answer of one run of the use case on it, the result or the
-- error that it raised, and the calls are those of that run, also when it raised: at most a market
-- order and its protective orders.
pub run_trade_execution-Outcome :
    ⦃context : Context⦄ (ports : Ports) (name : String) (started finished : Datetime)
    (command : Result ExecuteTradeCommand) (j : Journal)
    → Outcome ports name started finished j command
        (run_trade_execution ports name started finished command j)
unfolding run_trade_execution attempt
run_trade_execution-Outcome ports name started finished (err e) j =
    no_command e (scheduled name started finished none (err e)) (
      scheduled-Recorded {C = ExecuteTradeCommand} {R = ExecuteTradeResult} name started finished
        none (err e))
run_trade_execution-Outcome ports name started finished (ok c) j =
    ran c (scheduled name started finished (some c) (execute ports c j).0) (execute ports c j).1
      (scheduled-Recorded name started finished (some c) (execute ports c j).0) refl
      (execute-Executed ports c j)
