-- ===== src/Lifecycle/Promotions.antt =====
-- When a strategy is promoted, and what is saved then.
use gptrader_mw_v.Prelude.{
  true, false, ◌≡◌, ◌↔◌, refl, sym, subst, ◌⊎◌, inl, inr, Option, none, some, List, [], ◌∷◌, Result,
  ok, err, Error, OnOk, Bool-cases, Option-cases, ◌>>◌, Result-cases, ◌≤ℤ◌, ◌==◌, arith,
}
use gptrader_mw_v.Decimal.{Decimal}
use gptrader_mw_v.Lifecycle.{
  StrategyLifecycleStatus, promoted, status_index, Metrics, StrategyEvaluation, make_evaluation,
  metric, PromotionPolicy, is_allowed, falls_short, meets_minimums, can_promote,
  PromoteStrategyCommand, PromoteStrategyResult, StrategyRepository, find_evaluation, promotion_of,
  promoted_metadata, Saves, promote, decide, execute_promotion, strip_names,
}

-- A value that is there and reaches a threshold.
abbrev pub Reaches : Option Decimal → Decimal → Type 0
Reaches none threshold = ⊥
Reaches (some value) threshold = threshold ≤ℤ value

-- Every minimum is reached.
abbrev pub AllReached : Metrics → StrategyEvaluation → Type 0
AllReached [] e = Unit
AllReached ((name, threshold) ∷ m) e = Reaches (metric e name) threshold × AllReached m e

-- A status is one of a list.
abbrev pub OneOf : StrategyLifecycleStatus → List StrategyLifecycleStatus → Type 0
OneOf s [] = ⊥
OneOf s (t ∷ ts) = (status_index s ≡ status_index t) ⊎ OneOf s ts

reaches : (o : Option Decimal) (x : Decimal) → falls_short o x ≡ false ↔ Reaches o x
reaches none x = (λ h. cc, λ h. absurd h)
reaches (some v) x = (λ h. ground arith, λ h. ground arith)

meets_minimums-AllReached :
    (m : Metrics) (e : StrategyEvaluation)
    → (meets_minimums m e ≡ true → AllReached m e) × (AllReached m e → meets_minimums m e ≡ true)
unfolding meets_minimums
meets_minimums-AllReached [] e = (λ h. tt, λ h. refl)
meets_minimums-AllReached ((name, x) ∷ m) e =
    let (there, back) = meets_minimums-AllReached m e in
    let (to, from) = reaches (metric e name) x in
    elim (Bool-cases (falls_short (metric e name) x)) [
      | inl short ↦ (λ h. ground arith, λ (r, rs). ground (arith, from r))
      | inr enough ↦ rw enough (λ h. (to enough, there h), λ (r, rs). back rs)
    ]

is_allowed-OneOf :
    (s : StrategyLifecycleStatus) (ts : List StrategyLifecycleStatus)
    → (is_allowed s ts ≡ true → OneOf s ts) × (OneOf s ts → is_allowed s ts ≡ true)
unfolding is_allowed
is_allowed-OneOf s [] = (λ h. cc, λ h. absurd h)
is_allowed-OneOf s (t ∷ ts) =
    let (there, back) = is_allowed-OneOf s ts in
    elim (Bool-cases (status_index s == status_index t)) [
      | inl same ↦ (λ h. inl (ground arith), λ h. ground arith)
      | inr other ↦
          rw other
            (λ h. inr (there h), λ h. elim h [ inl e ↦ absurd (ground arith) | inr k ↦ back k ])
    ]

-- What the policy asks of an evaluation.
abbrev pub Eligible : PromotionPolicy → StrategyEvaluation → Type 0
Eligible p e = OneOf e.status p.allowed_statuses × AllReached p.minimum_metrics e

-- `can_promote` says agreed exactly to an evaluation with one of the allowed statuses that has a value for
-- every minimum and reaches it.
pub can_promote-Eligible :
    (p : PromotionPolicy) (e : StrategyEvaluation)
    → (can_promote p e ≡ true → Eligible p e) × (Eligible p e → can_promote p e ≡ true)
unfolding can_promote
can_promote-Eligible p e =
    let (allowed, allowing) = is_allowed-OneOf e.status p.allowed_statuses in
    let (met, meeting) = meets_minimums-AllReached p.minimum_metrics e in
    elim (Bool-cases (is_allowed e.status p.allowed_statuses)) [
      | inl agreed ↦ rw agreed (λ h. (allowed agreed, met h), λ (o, r). meeting r)
      | inr refused ↦ rw refused (λ h. cc, λ (o, r). absurd (ground (arith, allowing o)))
    ]

-- The evaluation that a command means.
abbrev pub Found : StrategyRepository → PromoteStrategyCommand → StrategyEvaluation → Type 0
Found repository c source =
    (es : List StrategyEvaluation) × (repository.list_evaluations c.target_id ≡ ok es)
    × (find_evaluation c.evaluation_id es ≡ some source)

-- A run that saves nothing.
abbrev pub NotPromoted :
    StrategyRepository → PromoteStrategyCommand → Result PromoteStrategyResult × Saves → Type 0
NotPromoted repository c run =
    (run.1 ≡ [])
    × OnOk
        (λ r.
          (r.is_promoted ≡ false)
          × (r.promoted_evaluation ≡ none)
          × ((source : StrategyEvaluation)
              → Found repository c source
              → Eligible c.policy source
              → ⊥))
        run.0

-- A run that saves one evaluation.
abbrev pub IsPromoted :
    StrategyRepository → PromoteStrategyCommand → Result PromoteStrategyResult × Saves → Type 0
IsPromoted repository c run =
    (source : StrategyEvaluation) × (e : StrategyEvaluation) × (run.1 ≡ e ∷ [])
    × Found repository c source
    × Eligible c.policy source
    × (e.status ≡ promoted)
    × (e.metrics ≡ strip_names [] source.metrics)
    × (e.metadata ≡ promoted_metadata source c)
    × OnOk
        (λ r.
          (r.is_promoted ≡ true)
          × (r.source_evaluation ≡ some source)
          × (r.promoted_evaluation ≡ some e))
        run.0

-- What the constructor of evaluations makes.
make_evaluation-made :
    (e : StrategyEvaluation)
    → OnOk
        (λ m.
          (m.status ≡ e.status)
          × (m.metrics ≡ strip_names [] e.metrics)
          × (m.metadata ≡ e.metadata))
        (make_evaluation e)
unfolding make_evaluation
make_evaluation-made e = ground arith

module _ (repository : StrategyRepository) (c : PromoteStrategyCommand) where
  saved :
      (source e : StrategyEvaluation)
      → OnOk
          (λ (r : PromoteStrategyResult).
            (r.is_promoted ≡ true)
            × (r.source_evaluation ≡ some source)
            × (r.promoted_evaluation ≡ some e))
          (do
            repository.answer_save e
            ok (record {
              is_promoted = true;
              reason = "promoted";
              source_evaluation = some source;
              promoted_evaluation = some e;
            }))
  saved source e = elim (Result-cases (repository.answer_save e)) [
    | inl (u, answered) ↦ rw answered (refl, refl, refl)
    | inr (x, raised) ↦ rw raised tt
  ]

  promote-IsPromoted :
      (source : StrategyEvaluation)
      → Found repository c source
      → Eligible c.policy source
      → NotPromoted repository c (promote repository c source)
        ⊎ IsPromoted repository c (promote repository c source)
  unfolding promote
  promote-IsPromoted source found eligible =
      elim (Result-cases (make_evaluation (promotion_of c source))) [
        | inl (e, made) ↦
            let (status, metrics, metadata) =
              subst
                (OnOk (λ m.
                  (m.status ≡ promoted)
                  × (m.metrics ≡ strip_names [] source.metrics)
                  × (m.metadata ≡ promoted_metadata source c)))
                made (make_evaluation-made (promotion_of c source)) in
            rw (made, promote)
              (inr (source, e, refl, found, eligible, status, metrics, metadata, saved source e))
        | inr (x, raised) ↦ rw (raised, promote) (inl (refl, tt))
      ]

  Found-unique :
      (es : List StrategyEvaluation) (source other : StrategyEvaluation)
      → repository.list_evaluations c.target_id ≡ ok es
      → find_evaluation c.evaluation_id es ≡ some source
      → Found repository c other
      → source ≡ other
  Found-unique es source other listed found (fs, h, k) = cc

  missing-NotFound :
      (es : List StrategyEvaluation) (other : StrategyEvaluation)
      → repository.list_evaluations c.target_id ≡ ok es
      → find_evaluation c.evaluation_id es ≡ none
      → Found repository c other
      → ⊥
  missing-NotFound es other listed missing (fs, h, k) = cc

  decide-Promoted :
      (es : List StrategyEvaluation)
      → repository.list_evaluations c.target_id ≡ ok es
      → let run = decide repository c (find_evaluation c.evaluation_id es) in
        NotPromoted repository c run ⊎ IsPromoted repository c run
  decide-Promoted es listed = elim (Option-cases (find_evaluation c.evaluation_id es)) [
    | inr (source, found) ↦
        let (says, said) = can_promote-Eligible c.policy source in
        elim (Bool-cases (can_promote c.policy source)) [
          | inl agreed ↦
              simp (found, agreed) (promote-IsPromoted source (es, listed, found) (says agreed))
          | inr refused ↦
              simp (found, refused)
                (inl (
                  refl,
                  (
                    refl,
                    refl,
                    λ other h eligible.
                        let agreed = said (
                          subst (Eligible c.policy)
                            (sym (Found-unique es source other listed found h)) eligible) in
                        cc,
                  ),
                ))
        ]
    | inl missing ↦ rw missing (
        inl (
          refl,
          (refl, refl, λ other h eligible. absurd (missing-NotFound es other listed missing h)),
        ))
  ]

  pub execute_promotion-decide :
      (es : List StrategyEvaluation)
      → repository.list_evaluations c.target_id ≡ ok es
      → execute_promotion repository c ≡ decide repository c (find_evaluation c.evaluation_id es)
  unfolding execute_promotion
  execute_promotion-decide es listed = rw (listed, execute_promotion) refl

  execute_promotion-raised :
      (x : Error)
      → repository.list_evaluations c.target_id ≡ err x
      → execute_promotion repository c ≡ (err x, [])
  unfolding execute_promotion
  execute_promotion-raised x raised = rw (raised, execute_promotion) refl

  -- A promotion saves nothing, and then it raises or reports that there is none, which it does only
  -- when no evaluation with the id of the command is listed or the policy refuses the first one; or
  -- it saves exactly one evaluation, of status promoted, made of the listed one that the policy accepts
  -- with its metrics and metadata, and reports it when the repository does not raise.
  pub execute_promotion-Promoted :
      let run = execute_promotion repository c in
      NotPromoted repository c run ⊎ IsPromoted repository c run
  unfolding execute_promotion
  execute_promotion-Promoted = elim (Result-cases (repository.list_evaluations c.target_id)) [
    | inl (es, listed) ↦
        subst (λ run. NotPromoted repository c run ⊎ IsPromoted repository c run)
          (sym (execute_promotion-decide es listed)) (decide-Promoted es listed)
    | inr (x, raised) ↦
        subst (λ run. NotPromoted repository c run ⊎ IsPromoted repository c run)
          (sym (execute_promotion-raised x raised)) (inl (refl, tt))
  ]
