-- ===== src/Regime/Payloads/Decoded.antt =====
-- What is written is read back.
use gptrader_mw_v.Prelude.{true, ◌≡◌, refl, String, eq_refl, Option, none, some, List, [], ◌∷◌, ok}
use gptrader_mw_v.Regime.Selection.{
  SelectionEventType, classification, entry_suspended, cluster_transition, strategy_transition,
  cash_transition, artifact_replaced, RegimeSelectionState, SelectStrategyResult, check_result,
}
use gptrader_mw_v.Regime.Selection.States.{IsValid, check_state-accepts}
use gptrader_mw_v.Regime.Json.{
  Json, array, Library, get_field, same_keys, check_hooks, check_items, strict_loads,
}
use gptrader_mw_v.Regime.Payloads.{
  event_value, event_of, event_items, decode_events, same_events, optional_json, optional_of,
  state_payload, result_payload, decode_state, decode_result,
}

event_of-value : (e : SelectionEventType) → event_of (event_value e) ≡ ok e
unfolding event_of
event_of-value classification = refl
event_of-value entry_suspended = refl
event_of-value cluster_transition = refl
event_of-value strategy_transition = refl
event_of-value cash_transition = refl
event_of-value artifact_replaced = refl

decode_events-items : (es : List SelectionEventType) → decode_events (event_items es) ≡ ok es
unfolding decode_events event_items
decode_events-items [] = refl
decode_events-items (e ∷ es) = rw (event_of-value e) (rw (decode_events-items es) refl)

pub same_events-items : (es : List SelectionEventType) → same_events (event_items es) es ≡ true
unfolding same_events event_items
same_events-items [] = refl
same_events-items (e ∷ es) = rw (eq_refl (event_value e)) (same_events-items es)

optional_of-json : (o : Option String) → optional_of (some (optional_json o)) ≡ ok o
optional_of-json none = refl
optional_of-json (some s) = refl

check_hooks-optional :
    (label : String) (o : Option String) → check_hooks label (optional_json o) ≡ ok tt
unfolding check_hooks
check_hooks-optional label none = refl
check_hooks-optional label (some s) = refl

check_items-events :
    (label : String) (es : List SelectionEventType) → check_items label (event_items es) ≡ ok tt
unfolding check_hooks event_items
check_items-events label [] = refl
check_items-events label (e ∷ es) = check_items-events label es

module _ (library : Library) where
  -- `json.loads` reads back what `json.dumps` wrote.
  abbrev pub Reads : Json → Type 0
  Reads j = library.loads (library.dumps j) ≡ some j

  pub strict_loads-dumps :
      (label : String) (j : Json)
      → Reads j
      → check_hooks label j ≡ ok tt
      → strict_loads library (library.dumps j) label ≡ ok j
  unfolding strict_loads
  strict_loads-dumps label j read hooks = rw read (rw hooks (rw (eq_refl (library.dumps j)) refl))

  pub check_hooks-events :
      (label : String) (es : List SelectionEventType)
      → check_hooks label (array (event_items es)) ≡ ok tt
  unfolding check_hooks
  check_hooks-events label es = check_items-events label es

  pub check_hooks-state :
      (label : String) (s : RegimeSelectionState) (b : String)
      → check_hooks label (state_payload s b) ≡ ok tt
  unfolding check_hooks
  check_hooks-state label s b = rw (check_hooks-optional label s.active_strategy_profile_id) (
      rw (check_hooks-optional label s.current_cluster_fingerprint) (
        rw (check_hooks-optional label s.pending_artifact_version)
          (rw (check_hooks-optional label s.pending_cluster_fingerprint) refl)))

  check_hooks-result :
      (label : String) (r : SelectStrategyResult) (b : String)
      → check_hooks label (result_payload r b) ≡ ok tt
  unfolding check_hooks
  check_hooks-result label r b =
      rw (check_items-events label r.events) (rw (check_hooks-state label r.state b) refl)

  pub decode_state-payload :
      (s : RegimeSelectionState) (b : String)
      → IsValid library.upper s
      → library.fromisoformat b ≡ some s.last_boundary_at
      → decode_state library (state_payload s b) ≡ ok s
  unfolding decode_state get_field same_keys
  decode_state-payload s b v read = rw read (
      rw (optional_of-json s.current_cluster_fingerprint) (
        rw (optional_of-json s.active_strategy_profile_id) (
          rw (optional_of-json s.pending_cluster_fingerprint) (
            rw (optional_of-json s.pending_artifact_version)
              (rw (check_state-accepts library.upper s v) refl)))))

  -- A result that its constructor accepts, with a valid state, is read back from the text that
  -- `_encode_result` writes, when `json.loads` reads back the canonical object that `json.dumps` wrote
  -- and `fromisoformat` reads back the boundary.
  pub decode_result-encode :
      (r : SelectStrategyResult) (b : String)
      → IsValid library.upper r.state
      → check_result r ≡ ok r
      → library.fromisoformat b ≡ some r.state.last_boundary_at
      → Reads (result_payload r b)
      → decode_result library (library.dumps (result_payload r b)) ≡ ok r
  unfolding decode_result get_field same_keys
  decode_result-encode r b v accepted read reads =
      rw
        (strict_loads-dumps "selection decision" (result_payload r b) reads
          (check_hooks-result "selection decision" r b))
        (rw (decode_events-items r.events)
          (rw (decode_state-payload r.state b v read) (rw accepted refl)))
