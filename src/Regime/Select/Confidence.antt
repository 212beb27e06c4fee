-- ===== src/Regime/Select/Confidence.antt =====
-- When the confidence of an observation can be told.
use gptrader_mw_v.Prelude.{
  Bool, true, false, not, ◌≡◌, inl, inr, String, str_eq, eq_iff, Option, some, [], ◌∷◌, ok, Returns,
  is_some, Bool-cases, arith,
}
use gptrader_mw_v.Decimal.{Decimal, Context}
use gptrader_mw_v.Regime.Artifacts.{
  Mapping, lookup, all_entries, same_keys, SelectionConfidenceThresholds, check_thresholds,
  SelectionArtifactSnapshot, make_snapshot,
}
use gptrader_mw_v.Regime.Observations.{ClusterAssignment, is_high_confidence}

all_entries-lookup {ℓ} :
    {A : Type ℓ} (f : String → A → Bool) (m : Mapping A) (k : String) (a : A)
    → all_entries f m ≡ true
    → lookup m k ≡ some a
    → f k a ≡ true
unfolding all_entries lookup
all_entries-lookup f [] k a every found = cc
all_entries-lookup f ((k', a') ∷ m) k a every found = elim (Bool-cases (str_eq k' k)) [
  | inl same ↦ ground (arith, (eq_iff k' k).0 same)
  | inr other ↦ ground (arith, all_entries-lookup f m k a)
]

-- The two keys of a mapping that has a strategy for a cluster and of the distances agree.
same_keys-lookup :
    (distances : Mapping Decimal) (m : Mapping (Option String)) (k : String) (s : Option String)
    → same_keys distances m ≡ true
    → lookup m k ≡ some s
    → is_some (lookup distances k) ≡ true
unfolding same_keys
same_keys-lookup distances m k s same found =
    all_entries-lookup (λ key _. is_some (lookup distances key)) m k s (ground arith) found

-- The distance of an assignment fits the model: none for "gmm", one for "kmeans".
abbrev pub Measured : String → ClusterAssignment → Type 0
Measured model_type a = is_some a.distance ≡ not (str_eq model_type "gmm")

made_facts :
    (digest : SelectionArtifactSnapshot → String) (s c : SelectionArtifactSnapshot)
    (identity : Option String)
    → make_snapshot digest s identity ≡ ok c
    → (str_eq s.confidence_thresholds.model_type s.model_type ≡ true)
      × (str_eq s.model_type "gmm" ≡ false
          → same_keys s.confidence_thresholds.kmeans_max_standardized_distances
              s.cluster_strategy_mapping
            ≡ true)
unfolding make_snapshot
made_facts digest s c identity h = ground arith

module _ ⦃context : Context⦄ where
  gmm_thresholds :
      (t u : SelectionConfidenceThresholds)
      → check_thresholds t ≡ ok u
      → str_eq t.model_type "gmm" ≡ true
      → (is_some t.gmm_probability_min ≡ true) × (is_some t.gmm_margin_min ≡ true)
  unfolding check_thresholds
  gmm_thresholds t u h k = ground arith

  -- For thresholds and a snapshot that their constructors accept, a mapped cluster and an assignment
  -- whose distance fits the model, the confidence of an observation can always be told.
  pub is_high_confidence-Returns :
      (digest : SelectionArtifactSnapshot → String) (s c : SelectionArtifactSnapshot)
      (identity : Option String) (t : SelectionConfidenceThresholds) (a : ClusterAssignment)
      (strategy : Option String)
      → check_thresholds s.confidence_thresholds ≡ ok t
      → make_snapshot digest s identity ≡ ok c
      → lookup s.cluster_strategy_mapping a.fingerprint ≡ some strategy
      → Measured s.model_type a
      → Returns (λ high. Unit) (is_high_confidence s.model_type s.confidence_thresholds a)
  unfolding is_high_confidence
  is_high_confidence-Returns digest s c identity t a strategy checked made found measured =
      let (same, keys) = made_facts digest s c identity made in
      let th = s.confidence_thresholds in
      elim (Bool-cases (str_eq s.model_type "gmm")) [
        | inl gmm ↦
            let (probability, margin) =
              gmm_thresholds th t checked (rw ((eq_iff th.model_type s.model_type).0 same) gmm) in
            ground arith
        | inr kmeans ↦
            let known =
              same_keys-lookup th.kmeans_max_standardized_distances s.cluster_strategy_mapping
                a.fingerprint strategy (keys kmeans) found in
            ground arith
      ]
