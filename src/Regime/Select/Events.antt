-- ===== src/Regime/Select/Events.antt =====
-- The events of a step, told from the states before and after it.
use gptrader_mw_v.Prelude.{
  Bool, true, not, ◌&&◌, ◌≡◌, refl, sym, ap, ◌∙◌, inl, inr, String, str_eq, eq_iff, eq_refl, Option,
  none, some, [], ◌∷◌, ◌++◌, ok, is_none, Bool-cases, arith, if◌then◌else◌,
}
use gptrader_mw_v.Regime.Selection.{
  classification, entry_suspended, cluster_transition, strategy_transition, cash_transition,
  artifact_replaced, RegimeSelectionState, check_events,
}
use gptrader_mw_v.Regime.Artifacts.{option_eq}
use gptrader_mw_v.Regime.Parts.{SelectionEvents}

-- Which events stand for which changes; without a change, the loss of new entries is reported alone.
unfoldable pub expected : Bool → Bool → Bool → Bool → Bool → SelectionEvents
expected artifact_kept current_kept active_kept is_cash suspended =
    let changes =
      (if artifact_kept then [] else artifact_replaced ∷ [])
      ++ (if current_kept then [] else cluster_transition ∷ [])
      ++ (if active_kept
          then []
          else if is_cash
          then cash_transition ∷ []
          else strategy_transition ∷ []) in
    elim changes [
      | [] ↦ if suspended then entry_suspended ∷ [] else classification ∷ []
      | e ∷ es ↦ e ∷ es
    ]

-- The events that tell how one state became another: a replaced artifact, another cluster, another
-- strategy or cash, in this order; else that new entries were suspended; else only a classification.
unfoldable pub expected_events : RegimeSelectionState → RegimeSelectionState → SelectionEvents
unfolding expected
expected_events p s =
    expected (str_eq p.artifact_version s.artifact_version)
      (option_eq p.current_cluster_fingerprint s.current_cluster_fingerprint)
      (option_eq p.active_strategy_profile_id s.active_strategy_profile_id)
      (is_none s.active_strategy_profile_id) (p.new_entries_enabled && not s.new_entries_enabled)

expected-allowed : (a b c d e : Bool) → check_events (expected a b c d e) ≡ ok tt
unfolding expected check_events
expected-allowed a b c d e = ground arith

-- The rules that the source has for events allow all events that tell a change of state.
pub expected_events-allowed :
    (p s : RegimeSelectionState) → check_events (expected_events p s) ≡ ok tt
unfolding expected_events
expected_events-allowed p s = expected-allowed _ _ _ _ _

pub option_eq_refl : (a : Option String) → option_eq a a ≡ true
option_eq_refl none = refl
option_eq_refl (some a) = eq_refl a

pub option_eq-eq : (a b : Option String) → option_eq a b ≡ true → a ≡ b
option_eq-eq none none h = refl
option_eq-eq none (some b) h = cc
option_eq-eq (some a) none h = cc
option_eq-eq (some a) (some b) h = ap some ((eq_iff a b).0 h)

pub option_eq-sym : (a b : Option String) → option_eq a b ≡ option_eq b a
option_eq-sym a b = elim (Bool-cases (option_eq a b)) [
  | inl h ↦ rw (option_eq-eq a b h) refl
  | inr h ↦ elim (Bool-cases (option_eq b a)) [
    | inl k ↦ rw (option_eq-eq b a k) refl
    | inr k ↦ h ∙ sym k
  ]
]
