-- ===== src/Risk.antt =====
-- domain/risk: exposure limits, the entry check of the risk policy and the sizing strategies.
pub mod Limits
pub mod Sizing
use gptrader_mw_v.Prelude.{
  ℕ, Bool, true, false, ◌||◌, ◌&&◌, not, String, Result, ok, err, ◌>>=◌, ◌>>◌, refuse_if, ℤ, pos,
  ltb_ℤ, leb_ℤ, min_ℤ, max_ℤ, if◌then◌else◌,
}
use gptrader_mw_v.Decimal.{Decimal, Context, literal, plus, minus, times, divide}
use gptrader_mw_v.Signal.{TradeDecision, is_entry}

pub record ExposureLimit : Type 0 where
  pub equity : Decimal
  pub current_total_exposure : Decimal
  pub current_symbol_exposure : Decimal
  pub max_total_exposure_ratio : Decimal
  pub max_symbol_exposure_ratio : Decimal

-- `ExposureLimit.__post_init__`
unfoldable pub check_exposure_limit : ExposureLimit → Result ExposureLimit
check_exposure_limit l = do
  refuse_if (leb_ℤ l.equity (pos 0)) "equity must be positive"
  refuse_if (ltb_ℤ l.current_total_exposure (pos 0)) "current_total_exposure cannot be negative"
  refuse_if (ltb_ℤ l.current_symbol_exposure (pos 0)) "current_symbol_exposure cannot be negative"
  refuse_if (leb_ℤ l.max_total_exposure_ratio (pos 0)) "max_total_exposure_ratio must be positive"
  refuse_if (leb_ℤ l.max_symbol_exposure_ratio (pos 0)) "max_symbol_exposure_ratio must be positive"
  ok l

pub data RiskDecisionReason : Type 0 where
  allowed not_entry_decision total_exposure_exceeded symbol_exposure_exceeded : RiskDecisionReason

pub record RiskCheck : Type 0 where
  pub is_allowed : Bool
  pub reason : RiskDecisionReason

pub record PositionSize : Type 0 where
  pub notional : Decimal
  pub quantity : Decimal

-- `PositionSize.__post_init__`
unfoldable pub check_position_size : PositionSize → Result PositionSize
check_position_size s = do
  refuse_if (ltb_ℤ s.notional (pos 0)) "notional cannot be negative"
  refuse_if (ltb_ℤ s.quantity (pos 0)) "quantity cannot be negative"
  ok s

pub record PositionSizingDecision : Type 0 where
  pub equity_ratio : Decimal
  pub leverage : Decimal

pub record FixedPositionSizingStrategy : Type 0 where
  pub equity_ratio : Decimal
  pub leverage : Decimal

pub record ConfidencePositionSizingStrategy : Type 0 where
  pub min_equity_ratio : Decimal
  pub max_equity_ratio : Decimal
  pub min_leverage : Decimal
  pub max_leverage : Decimal

-- `ConfidencePositionSizingStrategy.__post_init__`
unfoldable pub check_confidence_strategy :
    ConfidencePositionSizingStrategy → Result ConfidencePositionSizingStrategy
check_confidence_strategy s = do
  refuse_if (leb_ℤ s.min_equity_ratio (pos 0)) "min_equity_ratio must be positive"
  refuse_if (ltb_ℤ s.max_equity_ratio s.min_equity_ratio)
      "max_equity_ratio must be greater than or equal to min_equity_ratio"
  refuse_if (leb_ℤ s.min_leverage (pos 0)) "min_leverage must be positive"
  refuse_if (ltb_ℤ s.max_leverage s.min_leverage)
      "max_leverage must be greater than or equal to min_leverage"
  ok s

pub record PositionSizer : Type 0 where
  pub base_risk_ratio : Decimal
  pub leverage : Decimal

-- `PositionSizer.__post_init__`
unfoldable pub check_position_sizer : PositionSizer → Result PositionSizer
check_position_sizer s = do
  refuse_if (leb_ℤ s.base_risk_ratio (pos 0)) "base_risk_ratio must be positive"
  refuse_if (leb_ℤ s.leverage (pos 0)) "leverage must be positive"
  ok s

-- `_clamp`
unfoldable pub clamp : Decimal → Decimal → Decimal → Decimal
clamp value minimum maximum = max_ℤ minimum (min_ℤ value maximum)

module _ ⦃context : Context⦄ where
  unfoldable pub max_total_exposure : ExposureLimit → Decimal
  max_total_exposure l = times l.equity l.max_total_exposure_ratio

  unfoldable pub max_symbol_exposure : ExposureLimit → Decimal
  max_symbol_exposure l = times l.equity l.max_symbol_exposure_ratio

  unfoldable pub remaining_total_exposure : ExposureLimit → Decimal
  unfolding max_total_exposure
  remaining_total_exposure l = max_ℤ (minus (max_total_exposure l) l.current_total_exposure) (pos 0)

  unfoldable pub remaining_symbol_exposure : ExposureLimit → Decimal
  unfolding max_symbol_exposure
  remaining_symbol_exposure l =
      max_ℤ (minus (max_symbol_exposure l) l.current_symbol_exposure) (pos 0)

  -- `ExposureLimit.allows`
  unfoldable pub allows : ExposureLimit → Decimal → Result Bool
  allows l new_notional = do
    refuse_if (ltb_ℤ new_notional (pos 0)) "new_notional cannot be negative"
    ok (
        leb_ℤ new_notional (remaining_total_exposure l)
        && leb_ℤ new_notional (remaining_symbol_exposure l))

  -- `RiskPolicy.check_entry`
  unfoldable pub check_entry : TradeDecision → ExposureLimit → Decimal → Result RiskCheck
  check_entry decision l requested_notional = do
    refuse_if (ltb_ℤ requested_notional (pos 0)) "requested_notional cannot be negative"
    ok (
        if not (is_entry decision.action)
        then record { is_allowed = false; reason = not_entry_decision }
        else if ltb_ℤ (remaining_total_exposure l) requested_notional
        then record { is_allowed = false; reason = total_exposure_exceeded }
        else if ltb_ℤ (remaining_symbol_exposure l) requested_notional
        then record { is_allowed = false; reason = symbol_exposure_exceeded }
        else record { is_allowed = true; reason = allowed })

  abbrev pub max_leverage : Decimal
  max_leverage = literal 15 1

  -- `PositionSizingDecision.__post_init__`
  unfoldable pub check_sizing_decision : PositionSizingDecision → Result PositionSizingDecision
  check_sizing_decision d = do
    refuse_if (leb_ℤ d.equity_ratio (pos 0)) "equity_ratio must be positive"
    refuse_if (leb_ℤ d.leverage (pos 0)) "leverage must be positive"
    refuse_if (ltb_ℤ max_leverage d.leverage) "leverage cannot exceed 15"
    ok d

  -- `FixedPositionSizingStrategy.decide`
  unfoldable pub decide_fixed :
      FixedPositionSizingStrategy → TradeDecision → ExposureLimit → Result PositionSizingDecision
  unfolding check_sizing_decision
  decide_fixed s decision limit =
      check_sizing_decision
        (record { equity_ratio = s.equity_ratio; leverage = min_ℤ s.leverage max_leverage })

  -- `ConfidencePositionSizingStrategy.decide`
  unfoldable pub decide_confidence :
      ConfidencePositionSizingStrategy
      → TradeDecision
      → ExposureLimit
      → Result PositionSizingDecision
  unfolding check_sizing_decision clamp
  decide_confidence s decision limit =
      let confidence = clamp decision.signal.confidence (pos 0) (literal 1 1) in
      let equity_ratio =
        plus s.min_equity_ratio (times (minus s.max_equity_ratio s.min_equity_ratio) confidence) in
      let leverage =
        plus s.min_leverage
          (times (minus (min_ℤ s.max_leverage max_leverage) s.min_leverage) confidence) in
      check_sizing_decision (record { equity_ratio = equity_ratio; leverage = leverage })

  -- The smallest of the requested notional and the two remaining exposures.
  unfoldable pub cap_notional : ExposureLimit → Decimal → Decimal
  cap_notional l requested_notional =
      min_ℤ (min_ℤ requested_notional (remaining_total_exposure l)) (remaining_symbol_exposure l)

  -- `PositionSizer.size`
  unfoldable pub size :
      PositionSizer → TradeDecision → ExposureLimit → Decimal → Result PositionSize
  unfolding check_position_size
  size s decision l entry_price = do
    refuse_if (not (is_entry decision.action)) "position sizing requires an entry decision"
    refuse_if (leb_ℤ entry_price (pos 0)) "entry_price must be positive"
    let requested_notional =
        times (times (times l.equity s.base_risk_ratio) decision.signal.confidence) s.leverage
    let capped_notional = cap_notional l requested_notional
    quantity ← divide capped_notional entry_price
    check_position_size (record { notional = capped_notional; quantity = quantity })
