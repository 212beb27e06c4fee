-- ===== src/Lifecycle/Latest.antt =====
-- Which evaluation a run of the lifecycle promotes.
use gptrader_mw_v.Prelude.{
  true, false, ◌≡◌, refl, sym, subst, ◌∙◌, ap, ◌⊎◌, inl, inr, String, str_eq, eq_refl, Option, none,
  some, List, [], ◌∷◌, ok, Bool-cases, arith,
}
use gptrader_mw_v.Lifecycle.{
  StrategyEvaluation, PromotionPolicy, can_promote, PromoteStrategyCommand, PromoteStrategyResult,
  make_promote_command, StrategyRepository, find_evaluation, promote, decide, execute_promotion,
}
use gptrader_mw_v.Lifecycle.Promotions.{execute_promotion-decide, Eligible, can_promote-Eligible}
use gptrader_mw_v.Lifecycle.Cycle.{
  RunStrategyLifecycleCommand, latest_promotable, promotion_command, wrap,
  latest_promotable_evaluation_id, choose, promote_chosen, execute_run,
}

-- The policy accepts none of the evaluations.
abbrev pub NoneEligible : PromotionPolicy → List StrategyEvaluation → Type 0
NoneEligible p [] = Unit
NoneEligible p (e ∷ es) = (Eligible p e → ⊥) × NoneEligible p es

-- The last evaluation of a list that the policy accepts.
abbrev pub IsLatest : PromotionPolicy → StrategyEvaluation → List StrategyEvaluation → Type 0
IsLatest p e [] = ⊥
IsLatest p e (x ∷ xs) = IsLatest p e xs ⊎ ((e ≡ x) × Eligible p x × NoneEligible p xs)

-- No evaluation of a list has this id.
abbrev pub NotNamed : String → List StrategyEvaluation → Type 0
NotNamed id [] = Unit
NotNamed id (e ∷ es) = (str_eq id e.evaluation_id ≡ false) × NotNamed id es

abbrev pub Distinct : List StrategyEvaluation → Type 0
Distinct [] = Unit
Distinct (e ∷ es) = NotNamed e.evaluation_id es × Distinct es

-- The ids of a command and of the listed evaluations are as their constructors leave them.
abbrev pub Accepted : RunStrategyLifecycleCommand → List StrategyEvaluation → Type 0
Accepted c [] = Unit
Accepted c (e ∷ es) =
    (make_promote_command (promotion_command c e.evaluation_id)
      ≡ ok (promotion_command c e.evaluation_id))
    × Accepted c es

latest_promotable-IsLatest :
    (p : PromotionPolicy) (es : List StrategyEvaluation)
    → ((latest_promotable p es ≡ none) × NoneEligible p es)
      ⊎ ((e : StrategyEvaluation) × (latest_promotable p es ≡ some e.evaluation_id)
          × IsLatest p e es)
unfolding latest_promotable
latest_promotable-IsLatest p [] = inl (refl, tt)
latest_promotable-IsLatest p (x ∷ xs) = elim (latest_promotable-IsLatest p xs) [
  | inr (e, found, latest) ↦ inr (e, rw found refl, inl latest)
  | inl (missing, nobody) ↦
      let (says, said) = can_promote-Eligible p x in
      elim (Bool-cases (can_promote p x)) [
        | inl agreed ↦ inr (x, rw (missing, agreed) refl, inr (refl, says agreed, nobody))
        | inr refused ↦ inl (
          rw (missing, refused) refl,
          (λ eligible. absurd (ground (arith, said eligible)), nobody),
        )
      ]
]

NotNamed-latest :
    (p : PromotionPolicy) (id : String) (e : StrategyEvaluation) (es : List StrategyEvaluation)
    → NotNamed id es
    → IsLatest p e es
    → str_eq id e.evaluation_id ≡ false
NotNamed-latest p id e [] h latest = absurd latest
NotNamed-latest p id e (x ∷ xs) (h, hs) latest = elim latest [
  | inl later ↦ NotNamed-latest p id e xs hs later
  | inr (same, eligible, nobody) ↦ subst (λ y. str_eq id y.evaluation_id ≡ false) (sym same) h
]

find_first :
    (x : StrategyEvaluation) (xs : List StrategyEvaluation)
    → find_evaluation x.evaluation_id (x ∷ xs) ≡ some x
unfolding find_evaluation
find_first x xs = rw (eq_refl x.evaluation_id) refl

find_latest :
    (p : PromotionPolicy) (e : StrategyEvaluation) (es : List StrategyEvaluation)
    → Distinct es
    → IsLatest p e es
    → find_evaluation e.evaluation_id es ≡ some e
unfolding find_evaluation
find_latest p e [] d latest = absurd latest
find_latest p e (x ∷ xs) (h, hs) latest = elim latest [
  | inl later ↦ rw (NotNamed-latest p x.evaluation_id e xs h later) (find_latest p e xs hs later)
  | inr (same, eligible, nobody) ↦
      subst (λ y. find_evaluation y.evaluation_id (x ∷ xs) ≡ some y) (sym same) (find_first x xs)
]

latest-Accepted :
    (c : RunStrategyLifecycleCommand) (p : PromotionPolicy) (e : StrategyEvaluation)
    (es : List StrategyEvaluation)
    → Accepted c es
    → IsLatest p e es
    → make_promote_command (promotion_command c e.evaluation_id)
      ≡ ok (promotion_command c e.evaluation_id)
latest-Accepted c p e [] a latest = absurd latest
latest-Accepted c p e (x ∷ xs) (a, rest_accepted) latest = elim latest [
  | inl later ↦ latest-Accepted c p e xs rest_accepted later
  | inr (same, eligible, nobody) ↦
      subst
        (λ y.
          make_promote_command (promotion_command c y.evaluation_id)
          ≡ ok (promotion_command c y.evaluation_id))
        (sym same) a
]

module _ (repository later : StrategyRepository) (c : RunStrategyLifecycleCommand) where
  -- Nothing was promoted, for want of an evaluation.
  abbrev pub nothing_found : PromoteStrategyResult
  nothing_found = record {
    is_promoted = false;
    reason = "evaluation not found";
    source_evaluation = none;
    promoted_evaluation = none;
  }

  -- A run without an id of its own, when both listings give the same evaluations.
  abbrev pub Ran : List StrategyEvaluation → Type 0
  Ran es =
      (NoneEligible c.policy es
        × (execute_run repository later c ≡ (ok (record { promotion = nothing_found }), [])))
      ⊎ ((e : StrategyEvaluation) × IsLatest c.policy e es
          × (execute_run repository later c
              ≡ wrap (promote later (promotion_command c e.evaluation_id) e)))

  chosen_latest :
      (es : List StrategyEvaluation)
      → c.evaluation_id ≡ none
      → repository.list_evaluations c.target_id ≡ ok es
      → choose repository later c c.evaluation_id ≡ ok (latest_promotable c.policy es)
  unfolding latest_promotable_evaluation_id
  chosen_latest es given listed = rw given (rw listed refl)

  execute_run-chosen :
      (o : Option String)
      → choose repository later c c.evaluation_id ≡ ok o
      → execute_run repository later c ≡ wrap (promote_chosen repository later c o)
  unfolding execute_run
  execute_run-chosen o chosen = rw (chosen, execute_run) refl

  promote_chosen-accepted :
      (id : String) (command : PromoteStrategyCommand)
      → make_promote_command (promotion_command c id) ≡ ok command
      → promote_chosen repository later c (some id) ≡ execute_promotion later command
  promote_chosen-accepted id command accepted = rw (accepted, promote_chosen) refl

  decide-found :
      (command : PromoteStrategyCommand) (o : Option StrategyEvaluation) (e : StrategyEvaluation)
      → o ≡ some e
      → can_promote command.policy e ≡ true
      → decide later command o ≡ promote later command e
  decide-found command o e found agreed = rw found (rw agreed refl)

  -- The promotion of an evaluation that is found and that the policy accepts.
  chosen_promoted :
      (e : StrategyEvaluation) (es : List StrategyEvaluation)
      → make_promote_command (promotion_command c e.evaluation_id)
        ≡ ok (promotion_command c e.evaluation_id)
      → later.list_evaluations c.target_id ≡ ok es
      → find_evaluation e.evaluation_id es ≡ some e
      → can_promote c.policy e ≡ true
      → promote_chosen repository later c (some e.evaluation_id)
        ≡ promote later (promotion_command c e.evaluation_id) e
  chosen_promoted e es accepted listed found agreed =
      promote_chosen-accepted e.evaluation_id (promotion_command c e.evaluation_id) accepted
      ∙ execute_promotion-decide later (promotion_command c e.evaluation_id) es listed
      ∙ decide-found (promotion_command c e.evaluation_id) (find_evaluation e.evaluation_id es) e
          found agreed

  latest-Eligible :
      (e : StrategyEvaluation) (es : List StrategyEvaluation)
      → IsLatest c.policy e es
      → Eligible c.policy e
  latest-Eligible e [] latest = absurd latest
  latest-Eligible e (x ∷ xs) latest = elim latest [
    | inl further ↦ latest-Eligible e xs further
    | inr (same, eligible, nobody) ↦ subst (Eligible c.policy) (sym same) eligible
  ]

  -- When a run is given no evaluation, both listings give the same evaluations, of different ids, and
  -- the ids are as constructors leave them, then it promotes the last evaluation that the policy
  -- accepts; if there is none it promotes and saves nothing and says that no evaluation was found.
  pub execute_run-latest :
      (es : List StrategyEvaluation)
      → c.evaluation_id ≡ none
      → repository.list_evaluations c.target_id ≡ ok es
      → later.list_evaluations c.target_id ≡ ok es
      → Distinct es
      → Accepted c es
      → Ran es
  execute_run-latest es given listed relisted distinct accepted =
      let chosen = chosen_latest es given listed in
      elim (latest_promotable-IsLatest c.policy es) [
        | inl (missing, nobody) ↦ inl (nobody, execute_run-chosen none (chosen ∙ ap ok missing))
        | inr (e, found, latest) ↦
            let (says, said) = can_promote-Eligible c.policy e in
            inr (
              e,
              latest,
              execute_run-chosen (some e.evaluation_id) (chosen ∙ ap ok found)
                  ∙ ap wrap (
                      chosen_promoted e es (latest-Accepted c c.policy e es accepted latest)
                        relisted (find_latest c.policy e es distinct latest)
                        (said (latest-Eligible e es latest))),
            )
      ]
