-- ===== src/Signal.antt =====
-- domain/signal: directions, signals and trade decisions.
use gptrader_mw_v.Prelude.{
  ℕ, Bool, true, false, ◌||◌, not, String, List, [], Result, ok, ◌>>◌, refuse_if, is_blank, pos,
  ltb_ℤ,
}
use gptrader_mw_v.Decimal.{Decimal, Context, literal}

pub data SignalDirection : Type 0 where
  long short wait : SignalDirection

abbrev pub is_long : SignalDirection → Bool
is_long long = true
is_long _ = false

abbrev pub is_short : SignalDirection → Bool
is_short short = true
is_short _ = false

abbrev pub is_wait : SignalDirection → Bool
is_wait wait = true
is_wait _ = false

abbrev pub same_direction : SignalDirection → SignalDirection → Bool
same_direction long d = is_long d
same_direction short d = is_short d
same_direction wait d = is_wait d

-- A value of a `Mapping[str, object]`; `other` stands for an object of any other class.
pub data Value : Type 0 where
  decimal : Decimal → Value
  text : String → Value
  other : ℕ → Value

abbrev pub Metadata : Type 0
Metadata = List (String × Value)

pub record SignalReason : Type 0 where
  pub code : String
  pub message : String
  pub metadata : Metadata

unfoldable pub make_reason : String → String → Metadata → Result SignalReason
make_reason code message metadata = do
  refuse_if (is_blank code) "code is required"
  refuse_if (is_blank message) "message is required"
  ok (record { code = code; message = message; metadata = metadata })

pub record Signal : Type 0 where
  pub direction : SignalDirection
  pub confidence : Decimal
  pub reasons : List SignalReason
  pub metadata : Metadata

pub data TradeDecisionAction : Type 0 where
  enter_long enter_short exit hold : TradeDecisionAction

abbrev pub is_entry : TradeDecisionAction → Bool
is_entry enter_long = true
is_entry enter_short = true
is_entry _ = false

pub record TradeDecision : Type 0 where
  pub action : TradeDecisionAction
  pub signal : Signal

-- `TradeDecision.__post_init__`
abbrev pub check_action : TradeDecisionAction → SignalDirection → Result (Unit {0})
check_action enter_long d = refuse_if (not (is_long d)) "ENTER_LONG requires a LONG signal"
check_action enter_short d = refuse_if (not (is_short d)) "ENTER_SHORT requires a SHORT signal"
check_action _ d = ok tt

unfoldable pub make_decision : TradeDecisionAction → Signal → Result TradeDecision
make_decision action signal =
    check_action action signal.direction >> ok (record { action = action; signal = signal })

module _ ⦃context : Context⦄ where
  -- `Signal.__post_init__`
  unfoldable pub make_signal :
      SignalDirection → Decimal → List SignalReason → Metadata → Result Signal
  make_signal direction confidence reasons metadata = do
    refuse_if (ltb_ℤ confidence (pos 0) || ltb_ℤ (literal 1 1) confidence)
        "confidence must be between zero and one"
    ok (record {
      direction = direction;
      confidence = confidence;
      reasons = reasons;
      metadata = metadata;
    })

  -- `Signal.wait`
  unfoldable pub wait_signal : Metadata → Result Signal
  unfolding make_signal
  wait_signal metadata = make_signal wait (pos 0) [] metadata
