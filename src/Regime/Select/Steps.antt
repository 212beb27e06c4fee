-- ===== src/Regime/Select/Steps.antt =====
-- What each transition of the selector does.
use gptrader_mw_v.Prelude.{
  Bool, true, false, not, ◌&&◌, ◌≡◌, refl, sym, ◌∙◌, subst, inl, inr, String, str_eq, Option, none,
  some, [], ◌∷◌, Returns, Bool-cases, arith, if◌then◌else◌,
}
use gptrader_mw_v.Regime.Selection.{classification, entry_suspended, RegimeSelectionState}
use gptrader_mw_v.Regime.Artifacts.{option_eq}
use gptrader_mw_v.Regime.Selection.States.{IsValid}
use gptrader_mw_v.Regime.Parts.{confirms}
use gptrader_mw_v.Regime.Select.{
  confident_transition, low_confidence_transition, replacement_transition, transition,
}
use gptrader_mw_v.Regime.Observations.{SelectStrategyCommand}
use gptrader_mw_v.Regime.Select.Events.{option_eq-eq, option_eq-sym}
use gptrader_mw_v.Regime.Select.Made.{
  Fits, make_state-accepts, commit, commit-IsValid, await-IsValid, unsure, unsure-IsValid,
}
use gptrader_mw_v.Regime.Select.Commits.{
  Step, commit_same, commit_moved, commit_replaced, awaited, unsure-Step,
}

module _ (upper : String → String) where
  confirms-waiting :
      (r : Option String) (p : RegimeSelectionState) (fingerprint : String)
      → confirms r p fingerprint ≡ true
      → (p.pending_artifact_version ≡ r) × (p.pending_cluster_fingerprint ≡ some fingerprint)
  confirms-waiting r p fingerprint h =
      (option_eq-eq _ _ (ground arith), option_eq-eq _ _ (ground arith))

  confident-Step :
      (p : RegimeSelectionState) (c : SelectStrategyCommand)
      → c.previous_state ≡ some p
      → IsValid upper p
      → Fits upper c
      → Returns (λ (s, es). Step upper p c true s es) (confident_transition upper p c)
  unfolding confident_transition
  confident-Step p c hp v f =
      let fingerprint = c.assignment.fingerprint in
      let committed =
        make_state-accepts upper c (commit upper c p.artifact_version f.strategy)
          (commit-IsValid upper c p.artifact_version f v.artifact) in
      elim (Bool-cases (option_eq (some fingerprint) p.current_cluster_fingerprint)) [
        | inl same ↦ rw same (
            rw f.mapped (rw committed (commit_same upper p c hp v f (sym (option_eq-eq _ _ same)))))
        | inr other ↦ rw other (elim (Bool-cases (confirms none p fingerprint)) [
          | inl waits ↦ rw waits (
              rw f.mapped (
                rw committed (
                  commit_moved upper p c hp v f other
                    (confirms-waiting none p fingerprint waits).1)))
          | inr starts ↦
              let w =
                await-IsValid upper p c none p.new_entries_enabled v f refl refl (λ h. cc)
                  (λ h. h) in
              rw starts (
                rw (make_state-accepts upper c _ w) (
                  subst (Step upper p c true _) (and_not p.new_entries_enabled)
                    (awaited upper p c none p.new_entries_enabled hp w)))
        ])
      ]
    where
      and_not :
          (b : Bool)
          → (if b && not b then entry_suspended ∷ [] else classification ∷ []) ≡ classification ∷ []
      and_not true = refl
      and_not false = refl

  low_confidence-Step :
      (p : RegimeSelectionState) (c : SelectStrategyCommand)
      → c.previous_state ≡ some p
      → IsValid upper p
      → Fits upper c
      → Returns (λ (s, es). Step upper p c false s es) (low_confidence_transition upper p c)
  unfolding low_confidence_transition
  low_confidence-Step p c hp v f =
      rw (make_state-accepts upper c (unsure upper p c) (unsure-IsValid upper p c v f))
        (unsure-Step upper p c hp v (unsure-IsValid upper p c v f))

  replacement-Step :
      (p : RegimeSelectionState) (c : SelectStrategyCommand) (high : Bool)
      → c.previous_state ≡ some p
      → IsValid upper p
      → Fits upper c
      → str_eq c.artifact_snapshot.artifact_identity p.artifact_version ≡ false
      → Returns (λ (s, es). Step upper p c high s es) (replacement_transition upper p c high)
  unfolding replacement_transition
  replacement-Step p c false hp v f differs = low_confidence-Step p c hp v f
  replacement-Step p c true hp v f differs =
      let fingerprint = c.assignment.fingerprint in
      let identity = c.artifact_snapshot.artifact_identity in
      let differs' = option_eq-sym (some p.artifact_version) (some identity) ∙ differs in
      let committed =
        make_state-accepts upper c (commit upper c identity f.strategy)
          (commit-IsValid upper c identity f f.identity) in
      elim (Bool-cases (confirms (some identity) p fingerprint)) [
        | inl waits ↦
            let (replacement, waiting) = confirms-waiting (some identity) p fingerprint waits in
            rw waits (
              rw f.mapped
                (rw committed (commit_replaced upper p c hp v f differs' waiting replacement)))
        | inr starts ↦
            let w =
              await-IsValid upper p c (some identity) false v f f.identity differs (λ h. refl)
                (λ h. cc) in
            rw starts (
              rw (make_state-accepts upper c _ w) (
                subst (Step upper p c true _) (and_true p.new_entries_enabled)
                  (awaited upper p c (some identity) false hp w)))
      ]
    where
      and_true :
          (b : Bool)
          → (if b && true then entry_suspended ∷ [] else classification ∷ [])
            ≡ (if b then entry_suspended ∷ [] else classification ∷ [])
      and_true true = refl
      and_true false = refl

  on_same_artifact :
      (p : RegimeSelectionState) (c : SelectStrategyCommand) (high : Bool)
      → c.previous_state ≡ some p
      → IsValid upper p
      → Fits upper c
      → Returns
          (λ (s, es). Step upper p c high s es)
          (if high then confident_transition upper p c else low_confidence_transition upper p c)
  on_same_artifact p c true hp v f = confident-Step p c hp v f
  on_same_artifact p c false hp v f = low_confidence-Step p c hp v f

  -- From a valid state and a fitting command, the transition that `execute` chooses returns; the new
  -- state is valid, one version later, and of the command's symbol and boundary; the events tell how
  -- the state changed; new entries are enabled only on high confidence; on low confidence the cluster
  -- and artifact are kept and the count of such observations grows up to two; another cluster is
  -- committed only if it was pending, another artifact only if it was pending with the same cluster;
  -- and another strategy is the one mapped to the observed cluster, or cash after a second low one.
  pub transition-Step :
      (p : RegimeSelectionState) (c : SelectStrategyCommand) (high : Bool)
      → c.previous_state ≡ some p
      → IsValid upper p
      → Fits upper c
      → Returns (λ (s, es). Step upper p c high s es) (transition upper (some p) c high)
  unfolding transition
  transition-Step p c high hp v f =
      elim (Bool-cases (str_eq c.artifact_snapshot.artifact_identity p.artifact_version)) [
        | inr differs ↦ rw differs (replacement-Step p c high hp v f differs)
        | inl same ↦ rw same (on_same_artifact p c high hp v f)
      ]
