-- ===== src/Regime/Select/Results.antt =====
-- `execute` as a whole: it returns, and from which states a run of it can come.
use gptrader_mw_v.Prelude.{
  suc, Bool, true, false, ◌≡◌, refl, inl, String, Option, none, some, [], ◌∷◌, ok, Returns,
  Returns-map, Returns-value, is_some, arith,
}
use gptrader_mw_v.Decimal.{Context}
use gptrader_mw_v.Regime.Selection.{
  classification, RegimeSelectionState, check_events, SelectStrategyResult, check_result,
}
use gptrader_mw_v.Regime.Artifacts.{is_sha256, lookup}
use gptrader_mw_v.Regime.Selection.States.{IsValid}
use gptrader_mw_v.Regime.Parts.{SelectionEvents, StateParts, parts, previous_version}
use gptrader_mw_v.Regime.Select.{initial_transition, transition, same_boundary, execute}
use gptrader_mw_v.Regime.Observations.{SelectStrategyCommand, is_high_confidence}
use gptrader_mw_v.Regime.Select.Events.{expected_events-allowed}
use gptrader_mw_v.Regime.Select.Made.{
  Fits, made-IsValid, make_state-accepts, commit, commit-IsValid,
}
use gptrader_mw_v.Regime.Select.Commits.{Step}
use gptrader_mw_v.Regime.Select.Steps.{transition-Step}

classification-allowed : check_events (classification ∷ []) ≡ ok tt
unfolding check_events
classification-allowed = refl

module _ (upper : String → String) where
  -- The first state of a symbol: the observed cluster and its strategy if the confidence is high,
  -- else neither, and then one low observation is counted.
  pub record Started (c : SelectStrategyCommand) (high : Bool) (s : RegimeSelectionState)
      (es : SelectionEvents) : Type 0 where
    pub valid : IsValid upper s
    pub version : s.state_version ≡ 1
    pub events : es ≡ (classification ∷ [])
    pub artifact : s.artifact_version ≡ c.artifact_snapshot.artifact_identity
    pub confident :
        high ≡ true
        → (s.current_cluster_fingerprint ≡ some c.assignment.fingerprint)
          × (lookup c.artifact_snapshot.cluster_strategy_mapping c.assignment.fingerprint
              ≡ some s.active_strategy_profile_id)
          × (s.new_entries_enabled ≡ is_some s.active_strategy_profile_id)
    pub unsure :
        high ≡ false
        → (s.current_cluster_fingerprint ≡ none) × (s.consecutive_low_confidence_count ≡ 1)

  initial-Started :
      (c : SelectStrategyCommand) (high : Bool)
      → c.previous_state ≡ none
      → Fits upper c
      → Returns (λ (s, es). Started c high s es) (initial_transition upper c high)
  unfolding initial_transition
  initial-Started c true hp f =
      let identity = c.artifact_snapshot.artifact_identity in
      let w = commit-IsValid upper c identity f f.identity in
      rw f.mapped (
        rw (make_state-accepts upper c (commit upper c identity f.strategy) w) (record {
          valid = w;
          version = rw hp refl;
          events = refl;
          artifact = refl;
          confident = λ h. (refl, f.mapped, refl);
          unsure = λ h. cc;
        }))
  initial-Started c false hp f =
      let k : StateParts = record (parts c.artifact_snapshot.artifact_identity none none) {
        low_count = 1;
      } in
      let w =
        made-IsValid upper c k f
          (record {
            artifact = f.identity;
            current = refl;
            active = refl;
            pending = refl;
            replacement = refl;
          })
          (record {
            pending = inl (refl, refl);
            replacement_differs = refl;
            replacement_pending = λ h. cc;
            replacement_suspends = λ h. refl;
            low_alone = λ h. refl;
            low_bound = omega arith;
            low_suspends = λ h. refl;
            low_cash = λ h. refl;
            selected = λ h. refl;
            cash = λ h. refl;
          }) in
      rw (make_state-accepts upper c k w) (record {
        valid = w;
        version = rw hp refl;
        events = refl;
        artifact = refl;
        confident = λ h. cc;
        unsure = λ h. (refl, refl);
      })

  -- What a selection did, by the state before it if there was one.
  abbrev pub Selected :
      Option RegimeSelectionState
      → SelectStrategyCommand
      → Bool
      → RegimeSelectionState
      → SelectionEvents
      → Type 0
  Selected none c high s es = Started c high s es
  Selected (some p) c high s es = Step upper p c high s es

  abbrev pub ValidBefore : Option RegimeSelectionState → Type 0
  ValidBefore none = Unit
  ValidBefore (some p) = IsValid upper p

  pub transition-Selected :
      (o : Option RegimeSelectionState) (c : SelectStrategyCommand) (high : Bool)
      → c.previous_state ≡ o
      → ValidBefore o
      → Fits upper c
      → Returns
          (λ (s, es).
            Selected o c high s es
            × (check_events es ≡ ok tt)
            × (s.state_version ≡ suc (previous_version o)))
          (transition upper o c high)
  unfolding transition
  transition-Selected none c high hp v f =
      Returns-map (initial_transition upper c high)
        (λ (s, es) k. (k, rw k.events classification-allowed, k.version))
        (initial-Started c high hp f)
  transition-Selected (some p) c high hp v f =
      Returns-map (transition upper (some p) c high)
        (λ (s, es) k. (k, rw k.events (expected_events-allowed p s), k.version))
        (transition-Step upper p c high hp v f)

  module _ (input_hash : SelectStrategyCommand → String) ⦃context : Context⦄ where
    result-accepted :
        (r : SelectStrategyResult)
        → is_sha256 r.evaluated_artifact_identity ≡ true
        → is_sha256 r.selection_input_hash ≡ true
        → r.state.state_version ≡ suc r.expected_state_version
        → check_events r.events ≡ ok tt
        → check_result r ≡ ok r
    unfolding check_result
    result-accepted r hi hh hv he = ground arith

    -- When the confidence of an observation can be told, the state before it is valid or there is none,
    -- the command fits, its boundary is another one than the last, and the input hash is a hexadecimal
    -- text of 64 digits, `execute` returns a result for the state before, whose new state and events
    -- are those of the first state or of one step.
    pub execute-Selected :
        ((c : SelectStrategyCommand) → is_sha256 (input_hash c) ≡ true)
        → (c : SelectStrategyCommand) (high : Bool)
        → is_high_confidence c.artifact_snapshot.model_type
            c.artifact_snapshot.confidence_thresholds c.assignment
          ≡ ok high
        → ValidBefore c.previous_state
        → Fits upper c
        → same_boundary upper c.previous_state c.boundary_at ≡ false
        → Returns
            (λ r.
              Selected c.previous_state c high r.state r.events
              × (r.expected_state_version ≡ previous_version c.previous_state))
            (execute upper input_hash c)
    unfolding execute
    execute-Selected hashed c high told v f fresh =
        let ((s, es), h, (selected, allowed, version)) =
          Returns-value (transition upper c.previous_state c high)
            (transition-Selected c.previous_state c high refl v f) in
        let r : SelectStrategyResult = record {
          expected_state_version = previous_version c.previous_state;
          state = s;
          events = es;
          evaluated_artifact_identity = c.artifact_snapshot.artifact_identity;
          selection_input_hash = input_hash c;
        } in
        rw fresh (
          rw told
            (rw h (rw (result-accepted r f.identity (hashed c) version allowed) (selected, refl))))
