-- ===== src/Regime/Selection.antt =====
-- domain/regime/selection.py: the state of the selector and its results. Thresholds and snapshots
-- stand in Regime/Artifacts.
pub mod States
use gptrader_mw_v.Prelude.{
  ℕ, suc, ◌+◌, Bool, true, false, not, ◌&&◌, ◌||◌, String, str_eq, Option, none, some, List, [],
  ◌∷◌, ◌++◌, Result, ok, err, ◌>>=◌, ◌>>◌, refuse_if, is_none, is_some, is_canonical, is_empty, ℤ,
  pos, ltb_ℤ, leb_ℤ, ltb, leb, ◌==◌, if◌then◌else◌,
}
use gptrader_mw_v.Decimal.{Decimal, Context, literal}
use gptrader_mw_v.Regime.Temporal.{Timestamp, is_regime_boundary}
use Prim.Native.Char.{Char, code}
use Prim.Native.String
use gptrader_mw_v.Regime.Artifacts.{
  is_hex, is_hex_text, is_sha256, all_option, option_eq, xor, Mapping, lookup, all_entries,
  is_empty_mapping, same_keys, SelectionConfidenceThresholds, out_of_unit, check_distances,
  check_thresholds, SelectionArtifactSnapshot, check_mapping, check_identity, make_snapshot,
}

pub data SelectionEventType : Type 0 where
  classification entry_suspended cluster_transition strategy_transition cash_transition
        artifact_replaced :
      SelectionEventType

pub record RegimeSelectionState : Type 0 where
  pub symbol : String
  pub artifact_version : String
  pub current_cluster_fingerprint : Option String
  pub active_strategy_profile_id : Option String
  pub pending_cluster_fingerprint : Option String
  pub pending_confirmation_count : ℕ
  pub consecutive_low_confidence_count : ℕ
  pub new_entries_enabled : Bool
  pub last_boundary_at : Timestamp
  pub state_version : ℕ
  pub pending_artifact_version : Option String

-- The second half of `RegimeSelectionState.__post_init__`: how the fields fit together.
unfoldable pub check_counts : RegimeSelectionState → Result RegimeSelectionState
check_counts s = do
  let has_pending = ltb 0 s.pending_confirmation_count
  let is_low = not (s.consecutive_low_confidence_count == 0)
  refuse_if (xor has_pending (is_some s.pending_cluster_fingerprint))
      "pending count and cluster fingerprint must be consistent"
  refuse_if (ltb 1 s.pending_confirmation_count)
      "only one uncommitted confirmation may be persisted"
  refuse_if
      (is_some s.pending_artifact_version
        && option_eq s.pending_artifact_version (some s.artifact_version))
      "pending artifact must differ from the committed artifact"
  refuse_if (is_some s.pending_artifact_version && not has_pending)
      "pending artifact requires a pending confirmation"
  refuse_if (is_some s.pending_artifact_version && s.new_entries_enabled)
      "pending artifact replacement must suspend new entries"
  refuse_if (is_low && has_pending) "low confidence and pending confirmation cannot coexist"
  refuse_if (ltb 2 s.consecutive_low_confidence_count) "low confidence count cannot exceed two"
  refuse_if (is_low && s.new_entries_enabled) "low confidence must suspend new entries"
  refuse_if (s.consecutive_low_confidence_count == 2 && is_some s.active_strategy_profile_id)
      "two low-confidence observations must commit cash"
  refuse_if
      (is_none s.current_cluster_fingerprint
        && (is_some s.active_strategy_profile_id || s.new_entries_enabled))
      "an active selection requires a current cluster"
  refuse_if (is_none s.active_strategy_profile_id && s.new_entries_enabled)
      "cash cannot enable new entries"
  ok s

module _ (upper : String → String) where
  -- `RegimeSelectionState.__post_init__`, with `str.upper` as an argument; a count is a natural number.
  unfoldable pub check_state : RegimeSelectionState → Result RegimeSelectionState
  check_state s = do
    refuse_if (not (is_canonical s.symbol)) "symbol must be a nonempty canonical string"
    refuse_if (not (str_eq s.symbol (upper s.symbol))) "symbol must be canonical uppercase"
    refuse_if (not (is_sha256 s.artifact_version))
        "artifact_version must be a lowercase SHA256 hash"
    refuse_if (not (all_option is_canonical s.current_cluster_fingerprint))
        "current_cluster_fingerprint must be a nonempty canonical string"
    refuse_if (not (all_option is_canonical s.active_strategy_profile_id))
        "active_strategy_profile_id must be a nonempty canonical string"
    refuse_if (not (all_option is_canonical s.pending_cluster_fingerprint))
        "pending_cluster_fingerprint must be a nonempty canonical string"
    refuse_if (not (all_option is_sha256 s.pending_artifact_version))
        "pending_artifact_version must be a lowercase SHA256 hash"
    refuse_if (not (is_regime_boundary s.last_boundary_at))
        "last_boundary_at must be a four-hour UTC boundary"
    check_counts s

-- The place of an event in the order of the source, and equality of events.
abbrev pub event_index : SelectionEventType → ℕ
event_index artifact_replaced = 0
event_index cluster_transition = 1
event_index strategy_transition = 2
event_index cash_transition = 3
event_index classification = 4
event_index entry_suspended = 5

abbrev pub event_eq : SelectionEventType → SelectionEventType → Bool
event_eq a b = event_index a == event_index b

unfoldable pub has_event : SelectionEventType → List SelectionEventType → Bool
has_event e [] = false
has_event e (x ∷ xs) = event_eq e x || has_event e xs

unfoldable pub are_unique : List SelectionEventType → Bool
unfolding has_event
are_unique [] = true
are_unique (x ∷ xs) = not (has_event x xs) && are_unique xs

unfoldable pub are_material : List SelectionEventType → Bool
are_material [] = true
are_material (x ∷ xs) = ltb (event_index x) 4 && are_material xs

-- The events stand in the order of their places, with equal ones side by side.
unfoldable pub are_ordered : List SelectionEventType → Bool
are_ordered [] = true
are_ordered (x ∷ []) = true
are_ordered (x ∷ y ∷ xs) = leb (event_index x) (event_index y) && are_ordered (y ∷ xs)

abbrev pub is_single : List SelectionEventType → Bool
is_single (x ∷ []) = true
is_single _ = false

abbrev pub no_events : List SelectionEventType → Bool
no_events [] = true
no_events (x ∷ xs) = false

-- The rules for the events of a result.
unfoldable pub check_events : List SelectionEventType → Result (Unit {0})
unfolding are_unique has_event are_material are_ordered
check_events events = do
  refuse_if (no_events events) "selection events must be nonempty and known"
  refuse_if (not (are_unique events)) "selection events must be unique"
  refuse_if (has_event classification events && not (is_single events))
      "classification cannot accompany a material event"
  refuse_if (has_event entry_suspended events && not (is_single events))
      "entry suspension must be a standalone event"
  refuse_if (are_material events && not (are_ordered events))
      "selection events must use deterministic order"
  refuse_if
      (are_material events
        && has_event strategy_transition events
        && has_event cash_transition events)
      "strategy and cash transitions are mutually exclusive"

pub record SelectStrategyResult : Type 0 where
  pub expected_state_version : ℕ
  pub state : RegimeSelectionState
  pub events : List SelectionEventType
  pub evaluated_artifact_identity : String
  pub selection_input_hash : String

-- `SelectStrategyResult.__post_init__`
unfoldable pub check_result : SelectStrategyResult → Result SelectStrategyResult
unfolding check_events
check_result r = do
  refuse_if (not (is_sha256 r.evaluated_artifact_identity))
      "evaluated_artifact_identity must be a lowercase SHA256 hash"
  refuse_if (not (is_sha256 r.selection_input_hash))
      "selection_input_hash must be a lowercase SHA256 hash"
  refuse_if (not (r.state.state_version == suc r.expected_state_version))
      "proposed state version must increment expected state version"
  check_events r.events
  ok r
