-- ===== src/Trade/Journal.antt =====
-- The calls of the outside world that change it, in order, and actions that make them and may raise.
-- The journal holds the calls that were made, the latest first; a call that raises stays in it.
use gptrader_mw_v.Prelude.{String, List, ◌∷◌, Result, ok, err}
use gptrader_mw_v.Execution.{OrderRequest}
use gptrader_mw_v.Strategy.{GeneratedSignal}

pub record SignalLogEntry : Type 0 where
  pub signal_id : String
  pub generator_id : String
  pub generated_signal : GeneratedSignal

pub data Call : Type 0 where
  append_signal : SignalLogEntry → Call
  submit : OrderRequest → Call

abbrev pub Journal : Type 0
Journal = List Call

abbrev pub Action : Type 0 → Type 0
Action A = Journal → Result A × Journal

module _ {A : Type 0} where
  abbrev pub pure : A → Action A
  pure a j = (ok a, j)

  abbrev pub lift : Result A → Action A
  lift r j = (r, j)

  -- Makes a call, whose answer may depend on the calls before it.
  abbrev pub perform : Call → (Journal → Result A) → Action A
  perform call answer j = (answer j, call ∷ j)

module _ {A B : Type 0} where
  abbrev pub and_then : Result A → (A → Action B) → Action B
  and_then (ok a) f j = f a j
  and_then (err e) f j = (err e, j)

  infixl 5 ◌>>=◌ ◌>>◌
  abbrev pub ◌>>=◌ : Action A → (A → Action B) → Action B
  ◌>>=◌ m f j = let (r, j') = m j in and_then r f j'

  abbrev pub ◌>>◌ : Action A → Action B → Action B
  m >> n = m >>= λ _. n
