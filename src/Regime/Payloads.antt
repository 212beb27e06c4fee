-- ===== src/Regime/Payloads.antt =====
-- How selection states and results are written as JSON and read back
-- (infrastructure/persistence/repositories/sqlite_regime_selection_state_repository.py).
pub mod Decoded
use gptrader_mw_v.Prelude.{
  ℕ, Bool, true, false, not, ◌&&◌, ◌||◌, String, str_eq, Option, none, some, List, [], ◌∷◌, Result,
  ok, err, Error, value_error, ◌>>=◌, ◌>>◌, refuse_if, or_raise, is_empty, strip, pos,
  if◌then◌else◌,
}
use gptrader_mw_v.Regime.Temporal.{Timestamp}
use gptrader_mw_v.Regime.Selection.{
  SelectionEventType, classification, entry_suspended, cluster_transition, strategy_transition,
  cash_transition, artifact_replaced, RegimeSelectionState, check_state, SelectStrategyResult,
  check_result,
}
use gptrader_mw_v.Regime.Json.{
  Json, null, boolean, text, integer, array, object, Items, nil, cons, Fields, end, field, Library,
  get_field, same_keys, strict_loads, as_text, as_object, as_array,
}

abbrev pub state_keys : List String
state_keys =
    "symbol" ∷ "artifact_version" ∷ "current_cluster_fingerprint" ∷ "active_strategy_profile_id"
    ∷ "pending_cluster_fingerprint" ∷ "pending_confirmation_count"
    ∷ "consecutive_low_confidence_count" ∷ "new_entries_enabled" ∷ "last_boundary_at"
    ∷ "state_version" ∷ "pending_artifact_version" ∷ []

abbrev pub result_keys : List String
result_keys =
    "evaluated_artifact_identity" ∷ "expected_state_version" ∷ "state" ∷ "events"
    ∷ "selection_input_hash" ∷ []

-- `SelectionEventType.value`, and the event of a value.
abbrev pub event_value : SelectionEventType → String
event_value classification = "classification"
event_value entry_suspended = "entry_suspended"
event_value cluster_transition = "cluster_transition"
event_value strategy_transition = "strategy_transition"
event_value cash_transition = "cash_transition"
event_value artifact_replaced = "artifact_replaced"

unfoldable pub event_of : String → Result SelectionEventType
event_of s =
    if str_eq s "classification"
    then ok classification
    else if str_eq s "entry_suspended"
    then ok entry_suspended
    else if str_eq s "cluster_transition"
    then ok cluster_transition
    else if str_eq s "strategy_transition"
    then ok strategy_transition
    else if str_eq s "cash_transition"
    then ok cash_transition
    else if str_eq s "artifact_replaced"
    then ok artifact_replaced
    else err (value_error "is not a valid SelectionEventType")

-- `except (TypeError, ValueError)`: the error of a constructor becomes another one.
abbrev pub relabel {ℓ} : {A : Type ℓ} → Result A → String → Result A
relabel (ok a) message = ok a
relabel (err e) message = err (value_error message)

abbrev pub invalid {ℓ} : {A : Type ℓ} → Result A
invalid = err (value_error "invalid")

-- What a constructor takes for a field, which it refuses in another class.
abbrev pub text_of : Option Json → Result String
text_of (some (text s)) = ok s
text_of _ = invalid

abbrev pub optional_of : Option Json → Result (Option String)
optional_of (some null) = ok none
optional_of (some (text s)) = ok (some s)
optional_of _ = invalid

abbrev pub count_of : Option Json → Result ℕ
count_of (some (integer (pos n))) = ok n
count_of _ = invalid

abbrev pub flag_of : Option Json → Result Bool
flag_of (some (boolean b)) = ok b
flag_of _ = invalid

abbrev pub optional_json : Option String → Json
optional_json none = null
optional_json (some s) = text s

unfoldable pub event_items : List SelectionEventType → Items
event_items [] = nil
event_items (e ∷ es) = cons (text (event_value e)) (event_items es)

unfoldable pub decode_events : Items → Result (List SelectionEventType)
unfolding event_of
decode_events nil = ok []
decode_events (cons x xs) = do
  value ← text_of (some x)
  e ← event_of value
  es ← decode_events xs
  ok (e ∷ es)

-- `events_payload == [event.value for event in events]`
unfoldable pub same_events : Items → List SelectionEventType → Bool
same_events nil [] = true
same_events nil (e ∷ es) = false
same_events (cons x xs) [] = false
same_events (cons x xs) (e ∷ es) = elim (as_text x) [
  | none ↦ false
  | some s ↦ str_eq s (event_value e) && same_events xs es
]

abbrev pub utc_error : Error
utc_error = value_error "selection boundary must use canonical UTC"

-- `_state_to_payload`, in the order in which `sort_keys` writes it.
abbrev pub state_payload : RegimeSelectionState → String → Json
state_payload s boundary_at = object (
    field "active_strategy_profile_id" (optional_json s.active_strategy_profile_id) (
      field "artifact_version" (text s.artifact_version) (
        field "consecutive_low_confidence_count" (integer (pos s.consecutive_low_confidence_count))
          (field "current_cluster_fingerprint" (optional_json s.current_cluster_fingerprint) (
            field "last_boundary_at" (text boundary_at) (
              field "new_entries_enabled" (boolean s.new_entries_enabled) (
                field "pending_artifact_version" (optional_json s.pending_artifact_version) (
                  field "pending_cluster_fingerprint" (optional_json s.pending_cluster_fingerprint)
                    (field "pending_confirmation_count" (integer (pos s.pending_confirmation_count))
                      (field "state_version" (integer (pos s.state_version))
                        (field "symbol" (text s.symbol) end)))))))))))

-- The object of `_encode_result`, in the order in which `sort_keys` writes it.
abbrev pub result_payload : SelectStrategyResult → String → Json
result_payload r boundary_at = object (
    field "evaluated_artifact_identity" (text r.evaluated_artifact_identity) (
      field "events" (array (event_items r.events)) (
        field "expected_state_version" (integer (pos r.expected_state_version)) (
          field "selection_input_hash" (text r.selection_input_hash)
            (field "state" (state_payload r.state boundary_at) end)))))

module _ (library : Library) where
  -- `_utc_iso`
  unfoldable pub utc_iso : Timestamp → Result String
  utc_iso t = if not t.is_utc then err utc_error else ok (library.isoformat t)

  -- `_canonical_symbol`
  unfoldable pub canonical_symbol : String → Result String
  canonical_symbol s =
      if is_empty s || not (str_eq s (strip s)) || not (str_eq s (library.upper s))
      then err (value_error "symbol must be canonical uppercase")
      else ok s

  -- The fields of a state, as its constructor takes them.
  unfoldable pub state_from : Fields → Timestamp → Result RegimeSelectionState
  state_from fs last_boundary_at = do
    symbol ← text_of (get_field fs "symbol")
    artifact_version ← text_of (get_field fs "artifact_version")
    current_cluster_fingerprint ← optional_of (get_field fs "current_cluster_fingerprint")
    active_strategy_profile_id ← optional_of (get_field fs "active_strategy_profile_id")
    pending_cluster_fingerprint ← optional_of (get_field fs "pending_cluster_fingerprint")
    pending_confirmation_count ← count_of (get_field fs "pending_confirmation_count")
    consecutive_low_confidence_count ← count_of (get_field fs "consecutive_low_confidence_count")
    new_entries_enabled ← flag_of (get_field fs "new_entries_enabled")
    state_version ← count_of (get_field fs "state_version")
    pending_artifact_version ← optional_of (get_field fs "pending_artifact_version")
    check_state library.upper (record {
      symbol = symbol;
      artifact_version = artifact_version;
      current_cluster_fingerprint = current_cluster_fingerprint;
      active_strategy_profile_id = active_strategy_profile_id;
      pending_cluster_fingerprint = pending_cluster_fingerprint;
      pending_confirmation_count = pending_confirmation_count;
      consecutive_low_confidence_count = consecutive_low_confidence_count;
      new_entries_enabled = new_entries_enabled;
      last_boundary_at = last_boundary_at;
      state_version = state_version;
      pending_artifact_version = pending_artifact_version;
    })

  -- `_decode_state`
  unfoldable pub decode_state : Json → Result RegimeSelectionState
  unfolding state_from
  decode_state payload = do
    fs ← or_raise (as_object payload) (value_error "selection state keys are invalid")
    refuse_if (not (same_keys fs state_keys)) "selection state keys are invalid"
    boundary ←
        relabel (text_of (get_field fs "last_boundary_at")) "selection state boundary is invalid"
    last_boundary_at ←
        or_raise (library.fromisoformat boundary)
          (value_error "selection state boundary is invalid")
    relabel (state_from fs last_boundary_at) "selection state payload is invalid"

  -- The call of the constructor in `_decode_result`.
  unfoldable pub result_of : Fields → Items → Result SelectStrategyResult
  unfolding decode_events decode_state
  result_of fs values = do
    events ← decode_events values
    evaluated_artifact_identity ← text_of (get_field fs "evaluated_artifact_identity")
    expected_state_version ← count_of (get_field fs "expected_state_version")
    payload ← or_raise (get_field fs "state") (value_error "state")
    state ← decode_state payload
    selection_input_hash ← text_of (get_field fs "selection_input_hash")
    check_result (record {
      expected_state_version = expected_state_version;
      state = state;
      events = events;
      evaluated_artifact_identity = evaluated_artifact_identity;
      selection_input_hash = selection_input_hash;
    })

  -- `_decode_result`
  unfoldable pub decode_result : String → Result SelectStrategyResult
  unfolding strict_loads result_of
  decode_result result_json = do
    payload ← strict_loads library result_json "selection decision"
    fs ← or_raise (as_object payload) (value_error "selection decision keys are invalid")
    refuse_if (not (same_keys fs result_keys)) "selection decision keys are invalid"
    events ← or_raise (get_field fs "events") (value_error "selection decision keys are invalid")
    values ← or_raise (as_array events) (value_error "selection decision events are invalid")
    relabel (result_of fs values) "selection decision payload is invalid"
