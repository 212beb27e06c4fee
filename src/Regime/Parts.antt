-- ===== src/Regime/Parts.antt =====
-- The parts of a state that the selector makes, and the events that tell what it changed: the helpers
-- of the transitions in application/usecases/regime/select_strategy_usecase.py.
use gptrader_mw_v.Prelude.{
  ℕ, ◌+◌, Bool, false, ◌&&◌, String, Option, none, some, List, [], ◌∷◌, Result, or_raise, key_error,
  is_none, leb, ◌==◌, if◌then◌else◌,
}
use gptrader_mw_v.Regime.Selection.{
  SelectionEventType, classification, strategy_transition, cash_transition, RegimeSelectionState,
}
use gptrader_mw_v.Regime.Artifacts.{option_eq, lookup}
use gptrader_mw_v.Regime.Observations.{SelectStrategyCommand}

abbrev pub SelectionEvents : Type 0
SelectionEvents = List SelectionEventType

-- `min` of two counts.
abbrev pub min_ℕ : ℕ → ℕ → ℕ
min_ℕ a b = if leb a b then a else b

-- `_strategy_events`
unfoldable pub strategy_events : Option String → Option String → SelectionEvents
strategy_events old new =
    if option_eq old new
    then []
    else if is_none new
    then cash_transition ∷ []
    else strategy_transition ∷ []

-- `events or (CLASSIFICATION,)`
abbrev pub or_classification : SelectionEvents → SelectionEvents
or_classification [] = classification ∷ []
or_classification (e ∷ es) = e ∷ es

-- The keyword arguments of `_make_state`, which default to none, zero and false.
pub record StateParts : Type 0 where
  pub artifact : String
  pub current : Option String
  pub active : Option String
  pub pending_cluster : Option String
  pub pending_count : ℕ
  pub pending_artifact : Option String
  pub low_count : ℕ
  pub entries : Bool

abbrev pub parts : String → Option String → Option String → StateParts
parts artifact current active = record {
  artifact = artifact;
  current = current;
  active = active;
  pending_cluster = none;
  pending_count = 0;
  pending_artifact = none;
  low_count = 0;
  entries = false;
}

abbrev pub previous_version : Option RegimeSelectionState → ℕ
previous_version none = 0
previous_version (some p) = p.state_version

abbrev pub state_of : SelectStrategyCommand → StateParts → RegimeSelectionState
state_of c k = record {
  symbol = c.symbol;
  artifact_version = k.artifact;
  current_cluster_fingerprint = k.current;
  active_strategy_profile_id = k.active;
  pending_cluster_fingerprint = k.pending_cluster;
  pending_confirmation_count = k.pending_count;
  consecutive_low_confidence_count = k.low_count;
  new_entries_enabled = k.entries;
  last_boundary_at = c.boundary_at;
  state_version = previous_version c.previous_state + 1;
  pending_artifact_version = k.pending_artifact;
}

-- `command.artifact_snapshot.cluster_strategy_mapping[fingerprint]`
abbrev pub strategy_at : SelectStrategyCommand → String → Result (Option String)
strategy_at c fingerprint =
    or_raise (lookup c.artifact_snapshot.cluster_strategy_mapping fingerprint)
      (key_error fingerprint)

-- `previous` has one confirmation of `fingerprint` pending, for the given replacement if any.
abbrev pub confirms : Option String → RegimeSelectionState → String → Bool
confirms replacement p fingerprint =
    option_eq p.pending_artifact_version replacement
    && option_eq p.pending_cluster_fingerprint (some fingerprint)
    && p.pending_confirmation_count == 1
