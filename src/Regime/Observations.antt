-- ===== src/Regime/Observations.antt =====
-- The command of the selector and the confidence of an observation
-- (application/usecases/regime/select_strategy_usecase.py).
use gptrader_mw_v.Prelude.{
  Bool, false, not, ◌&&◌, String, str_eq, Option, none, some, Result, ok, ◌>>=◌, ◌>>◌, refuse_if,
  or_raise, key_error, decimal_error, value_error, is_none, is_some, is_canonical, leb_ℤ, ltb,
  ltb_ℤ, ◌||◌, is_empty, pos, if◌then◌else◌,
}
use gptrader_mw_v.Decimal.{Decimal, Context, minus}
use gptrader_mw_v.Regime.Temporal.{Timestamp, is_regime_boundary}
use gptrader_mw_v.Regime.Selection.{RegimeSelectionState}
use gptrader_mw_v.Regime.Artifacts.{
  out_of_unit, Mapping, lookup, SelectionConfidenceThresholds, SelectionArtifactSnapshot,
}

pub record ClusterAssignment : Type 0 where
  pub fingerprint : String
  pub dominant_probability : Decimal
  pub second_probability : Decimal
  pub distance : Option Decimal

abbrev pub is_negative_distance : Option Decimal → Bool
is_negative_distance none = false
is_negative_distance (some d) = ltb_ℤ d (pos 0)

-- `ClusterAssignment.__post_init__`. The comparison of floating-point numbers
-- `math.fsum((dominant, second)) > 1.0 + 1e-12` is an argument.
unfoldable pub check_assignment :
    ⦃context : Context⦄ → (Decimal → Decimal → Bool) → ClusterAssignment → Result ClusterAssignment
check_assignment exceeds_one a = do
  refuse_if (is_empty a.fingerprint) "assignment fingerprint is required"
  refuse_if (out_of_unit (some a.dominant_probability) || out_of_unit (some a.second_probability))
      "assignment probabilities must be finite and between zero and one"
  refuse_if (ltb_ℤ a.dominant_probability a.second_probability)
      "second probability cannot exceed dominant probability"
  refuse_if (exceeds_one a.dominant_probability a.second_probability)
      "top-two assignment probability sum cannot exceed one"
  refuse_if (is_negative_distance a.distance) "assignment distance must be finite and nonnegative"
  ok a

pub record SelectStrategyCommand : Type 0 where
  pub previous_state : Option RegimeSelectionState
  pub symbol : String
  pub boundary_at : Timestamp
  pub artifact_snapshot : SelectionArtifactSnapshot
  pub assignment : ClusterAssignment

abbrev pub missing_current : Mapping (Option String) → Option String → Bool
missing_current m none = false
missing_current m (some c) = is_none (lookup m c)

-- The checks of a command against the state before it.
abbrev pub check_symbol_and_time :
    Option RegimeSelectionState → SelectStrategyCommand → Result (Unit {0})
check_symbol_and_time none c = ok tt
check_symbol_and_time (some p) c = do
  refuse_if (not (str_eq p.symbol c.symbol)) "previous state symbol must match command symbol"
  refuse_if (ltb c.boundary_at.instant p.last_boundary_at.instant)
      "boundary_at cannot precede the previous boundary"

abbrev pub lost_current : Option RegimeSelectionState → SelectionArtifactSnapshot → Bool
lost_current none a = false
lost_current (some p) a =
    str_eq a.artifact_identity p.artifact_version
    && missing_current a.cluster_strategy_mapping p.current_cluster_fingerprint

module _ (upper : String → String) where
  -- `SelectStrategyCommand.__post_init__`
  unfoldable pub check_command : SelectStrategyCommand → Result SelectStrategyCommand
  check_command c = do
    refuse_if (not (is_canonical c.symbol)) "symbol must be a nonempty canonical string"
    refuse_if (not (str_eq c.symbol (upper c.symbol))) "symbol must be canonical uppercase"
    refuse_if (not (is_regime_boundary c.boundary_at))
        "boundary_at must be a four-hour UTC boundary"
    check_symbol_and_time c.previous_state c
    refuse_if
        (is_none (lookup c.artifact_snapshot.cluster_strategy_mapping c.assignment.fingerprint))
        "assignment fingerprint must exist in the mapping"
    refuse_if (lost_current c.previous_state c.artifact_snapshot)
        "committed artifact mapping must contain the current cluster"
    ok c

module _ ⦃context : Context⦄ where
  -- `Decimal(str(None))` raises `InvalidOperation`.
  abbrev pub gmm_is_confident : Option Decimal → Option Decimal → ClusterAssignment → Result Bool
  gmm_is_confident probability_min margin_min a = do
    probability_min ← or_raise probability_min decimal_error
    if not (leb_ℤ probability_min a.dominant_probability) then ok false else (do
      margin_min ← or_raise margin_min decimal_error
      ok (leb_ℤ margin_min (minus a.dominant_probability a.second_probability)))

  -- `_is_high_confidence`
  unfoldable pub is_high_confidence :
      String → SelectionConfidenceThresholds → ClusterAssignment → Result Bool
  is_high_confidence model_type t a =
      if str_eq model_type "gmm"
      then (do
        refuse_if (is_some a.distance) "GMM assignment distance must be None"
        gmm_is_confident t.gmm_probability_min t.gmm_margin_min a)
      else (do
        distance ← or_raise a.distance (value_error "KMeans assignment distance is required")
        threshold ←
            or_raise (lookup t.kmeans_max_standardized_distances a.fingerprint)
              (key_error a.fingerprint)
        ok (leb_ℤ distance threshold))
