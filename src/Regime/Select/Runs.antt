-- ===== src/Regime/Select/Runs.antt =====
-- Several steps of the selector: what two agreeing observations do, and which states are reachable.
use gptrader_mw_v.Prelude.{
  Bool, true, false, ◌&&◌, ◌||◌, ◌≡◌, refl, sym, ◌∙◌, subst, inl, inr, String, str_eq, eq_iff,
  eq_refl, Option, none, some, ok, Returns, is_some, Bool-cases, arith, if◌then◌else◌,
}
use gptrader_mw_v.Regime.Selection.{RegimeSelectionState}
use gptrader_mw_v.Regime.Artifacts.{option_eq, lookup}
use gptrader_mw_v.Regime.Selection.States.{IsValid}
use gptrader_mw_v.Regime.Parts.{SelectionEvents, state_of, confirms}
use gptrader_mw_v.Regime.Select.{confident_transition, replacement_transition, transition}
use gptrader_mw_v.Regime.Observations.{SelectStrategyCommand}
use gptrader_mw_v.Regime.Select.Events.{option_eq_refl}
use gptrader_mw_v.Regime.Select.Made.{
  Fits, make_state-accepts, commit, commit-IsValid, await, await-IsValid,
}
use gptrader_mw_v.Regime.Select.Commits.{Step}
use gptrader_mw_v.Regime.Select.Steps.{transition-Step}

-- The replacement that a state must have pending to be confirmed for an artifact.
abbrev replacement_for : String → String → Option String
replacement_for identity artifact = if str_eq identity artifact then none else some identity

-- The next confident observation of this artifact and cluster is committed: both are committed
-- already, or the state waits for just this confirmation.
unfoldable settled : RegimeSelectionState → String → String → Bool
settled p identity fingerprint =
    str_eq identity p.artifact_version && option_eq (some fingerprint) p.current_cluster_fingerprint
    || confirms (replacement_for identity p.artifact_version) p fingerprint

-- The artifact, cluster and strategy of an observation are in force.
pub record Committed (c : SelectStrategyCommand) (s : RegimeSelectionState) : Type 0 where
  pub artifact : s.artifact_version ≡ c.artifact_snapshot.artifact_identity
  pub cluster : s.current_cluster_fingerprint ≡ some c.assignment.fingerprint
  pub strategy :
      lookup c.artifact_snapshot.cluster_strategy_mapping c.assignment.fingerprint
      ≡ some s.active_strategy_profile_id
  pub entries : s.new_entries_enabled ≡ is_some s.active_strategy_profile_id

unsettled_same :
    (p : RegimeSelectionState) (identity fingerprint : String)
    → str_eq identity p.artifact_version ≡ true
    → option_eq (some fingerprint) p.current_cluster_fingerprint ≡ false
    → confirms none p fingerprint ≡ false
    → settled p identity fingerprint ≡ false
unfolding settled
unsettled_same p identity fingerprint same other starts = rw same (rw other starts)

unsettled_other :
    (p : RegimeSelectionState) (identity fingerprint : String)
    → str_eq identity p.artifact_version ≡ false
    → confirms (some identity) p fingerprint ≡ false
    → settled p identity fingerprint ≡ false
unfolding settled
unsettled_other p identity fingerprint differs starts = rw differs starts

module _ (upper : String → String) where
  settled-Committed :
      (c : SelectStrategyCommand) (s : RegimeSelectionState)
      → Committed c s
      → settled s c.artifact_snapshot.artifact_identity c.assignment.fingerprint ≡ true
  unfolding settled
  settled-Committed c s k =
      let identity = c.artifact_snapshot.artifact_identity in
      let fingerprint = c.assignment.fingerprint in
      rw k.artifact (rw k.cluster (ground (arith, eq_refl identity, eq_refl fingerprint)))

  -- The outcome of a confident observation: settled, and committed if it was settled before.
  abbrev Settles : RegimeSelectionState → SelectStrategyCommand → RegimeSelectionState → Type 0
  Settles p c s =
      (settled s c.artifact_snapshot.artifact_identity c.assignment.fingerprint ≡ true)
      × (settled p c.artifact_snapshot.artifact_identity c.assignment.fingerprint ≡ true
          → Committed c s)

  commit-Committed :
      (c : SelectStrategyCommand) (artifact : String) (f : Fits upper c)
      → artifact ≡ c.artifact_snapshot.artifact_identity
      → Committed c (state_of c (commit upper c artifact f.strategy))
  commit-Committed c artifact f same = record {
    artifact = same;
    cluster = refl;
    strategy = f.mapped;
    entries = refl;
  }

  await-Settles :
      (p : RegimeSelectionState) (c : SelectStrategyCommand) (replacement : Option String)
      (entries : Bool)
      → replacement ≡ replacement_for c.artifact_snapshot.artifact_identity p.artifact_version
      → settled p c.artifact_snapshot.artifact_identity c.assignment.fingerprint ≡ false
      → Settles p c (state_of c (await upper p c replacement entries))
  unfolding settled
  await-Settles p c replacement entries given unsettled = (
    rw given (
        ground (
          arith,
          option_eq_refl (replacement_for c.artifact_snapshot.artifact_identity p.artifact_version),
          eq_refl c.assignment.fingerprint,
        )),
    λ h. ground arith,
  )

  confident-Settles :
      (p : RegimeSelectionState) (c : SelectStrategyCommand)
      → IsValid upper p
      → Fits upper c
      → str_eq c.artifact_snapshot.artifact_identity p.artifact_version ≡ true
      → Returns (λ (s, es). Settles p c s) (confident_transition upper p c)
  unfolding confident_transition
  confident-Settles p c v f same =
      let fingerprint = c.assignment.fingerprint in
      let identity = c.artifact_snapshot.artifact_identity in
      let done =
        commit-Committed c p.artifact_version f
          (sym ((eq_iff identity p.artifact_version).0 same)) in
      let settles : Settles p c (state_of c (commit upper c p.artifact_version f.strategy)) =
        (settled-Committed c _ done, λ h. done) in
      let committed =
        make_state-accepts upper c (commit upper c p.artifact_version f.strategy)
          (commit-IsValid upper c p.artifact_version f v.artifact) in
      elim (Bool-cases (option_eq (some fingerprint) p.current_cluster_fingerprint)) [
        | inl at_current ↦ rw at_current (rw f.mapped (rw committed settles))
        | inr other ↦ rw other (elim (Bool-cases (confirms none p fingerprint)) [
          | inl waits ↦ rw waits (rw f.mapped (rw committed settles))
          | inr starts ↦
              let w =
                await-IsValid upper p c none p.new_entries_enabled v f refl refl (λ h. cc)
                  (λ h. h) in
              rw starts (
                rw (make_state-accepts upper c _ w) (
                  await-Settles p c none p.new_entries_enabled (rw same refl)
                    (unsettled_same p identity fingerprint same other starts)))
        ])
      ]

  replacement-Settles :
      (p : RegimeSelectionState) (c : SelectStrategyCommand)
      → IsValid upper p
      → Fits upper c
      → str_eq c.artifact_snapshot.artifact_identity p.artifact_version ≡ false
      → Returns (λ (s, es). Settles p c s) (replacement_transition upper p c true)
  unfolding replacement_transition
  replacement-Settles p c v f differs =
      let fingerprint = c.assignment.fingerprint in
      let identity = c.artifact_snapshot.artifact_identity in
      let done = commit-Committed c identity f refl in
      elim (Bool-cases (confirms (some identity) p fingerprint)) [
        | inl waits ↦ rw waits (
            rw f.mapped (
              rw
                (make_state-accepts upper c (commit upper c identity f.strategy)
                  (commit-IsValid upper c identity f f.identity))
                (settled-Committed c _ done, λ h. done)))
        | inr starts ↦
            let w =
              await-IsValid upper p c (some identity) false v f f.identity differs (λ h. refl)
                (λ h. cc) in
            rw starts (
              rw (make_state-accepts upper c _ w) (
                await-Settles p c (some identity) false (rw differs refl)
                  (unsettled_other p identity fingerprint differs starts)))
      ]

  settles :
      (p s : RegimeSelectionState) (c : SelectStrategyCommand) (es : SelectionEvents)
      → IsValid upper p
      → Fits upper c
      → transition upper (some p) c true ≡ ok (s, es)
      → Settles p c s
  unfolding transition
  settles p s c es v f h =
      elim (Bool-cases (str_eq c.artifact_snapshot.artifact_identity p.artifact_version)) [
        | inl same ↦
            let e : confident_transition upper p c ≡ ok (s, es) = ground arith in
            subst (Returns (λ x. Settles p c x.0)) e (confident-Settles p c v f same)
        | inr differs ↦
            let e : replacement_transition upper p c true ≡ ok (s, es) = ground arith in
            subst (Returns (λ x. Settles p c x.0)) e (replacement-Settles p c v f differs)
      ]

  -- Two confident observations in a row of the same artifact and cluster: whatever the valid state was
  -- before, after the second one the artifact, the cluster and the strategy mapped to it are in force,
  -- and new entries are enabled unless that strategy is cash.
  pub confirm_twice :
      (p s t : RegimeSelectionState) (c d : SelectStrategyCommand) (es fs : SelectionEvents)
      → IsValid upper p
      → c.previous_state ≡ some p
      → Fits upper c
      → Fits upper d
      → d.artifact_snapshot.artifact_identity ≡ c.artifact_snapshot.artifact_identity
      → d.assignment.fingerprint ≡ c.assignment.fingerprint
      → transition upper (some p) c true ≡ ok (s, es)
      → transition upper (some s) d true ≡ ok (t, fs)
      → Committed d t
  confirm_twice p s t c d es fs v hp f g same_artifact same_cluster first second =
      let step : Step upper p c true s es =
        subst (Returns (λ x. Step upper p c true x.0 x.1)) first
          (transition-Step upper p c true hp v f) in
      let (ready, _) = settles p s c es v f first in
      let (_, commits) = settles s t d fs step.valid g second in
      commits (rw same_artifact (rw same_cluster ready))

  -- Two observations of low confidence in a row end in cash without new entries, and keep the cluster
  -- and the artifact.
  pub doubt_twice :
      (p s t : RegimeSelectionState) (c d : SelectStrategyCommand) (es fs : SelectionEvents)
      → IsValid upper p
      → c.previous_state ≡ some p
      → d.previous_state ≡ some s
      → Fits upper c
      → Fits upper d
      → transition upper (some p) c false ≡ ok (s, es)
      → transition upper (some s) d false ≡ ok (t, fs)
      → (t.active_strategy_profile_id ≡ none)
        × (t.new_entries_enabled ≡ false)
        × (t.current_cluster_fingerprint ≡ p.current_cluster_fingerprint)
        × (t.artifact_version ≡ p.artifact_version)
  doubt_twice p s t c d es fs v hp hs f g first second =
      let one : Step upper p c false s es =
        subst (Returns (λ x. Step upper p c false x.0 x.1)) first
          (transition-Step upper p c false hp v f) in
      let two : Step upper s d false t fs =
        subst (Returns (λ x. Step upper s d false x.0 x.1)) second
          (transition-Step upper s d false hs one.valid g) in
      let (artifact, cluster, low) = one.unsure refl in
      let (artifact', cluster', low') = two.unsure refl in
      let cash = two.valid.consistent.low_cash (ground arith) in
      (cash, two.valid.consistent.cash cash, cluster' ∙ cluster, artifact' ∙ artifact)
