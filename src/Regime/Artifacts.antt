-- ===== src/Regime/Artifacts.antt =====
-- domain/regime/selection.py: confidence thresholds and artifact snapshots. A `float` stands as the
-- decimal that `str` prints for it, which keeps its order. The sorting of mappings by key is left out:
-- nothing here reads the order of a mapping. The hexadecimal digest that `hashlib` gives for the
-- content of a snapshot is an argument.
use gptrader_mw_v.Prelude.{
  ℕ, suc, Bool, true, false, not, ◌&&◌, ◌||◌, String, str_eq, Option, none, some, List, [], ◌∷◌,
  Result, ok, ◌>>◌, refuse_if, is_none, is_some, is_canonical, pos, ltb_ℤ, leb, ◌==◌, if◌then◌else◌,
}
use gptrader_mw_v.Decimal.{Decimal, Context, literal}
use Prim.Native.Char.{code}

-- `[0-9a-f]{64}`
abbrev pub is_hex : ℕ → Bool
is_hex c = leb 48 c && leb c 57 || leb 97 c && leb c 102

unfoldable pub is_hex_text : ℕ → String → Bool
is_hex_text n String.[] = n == 0
is_hex_text ℕ.zero (String.◌∷◌ c s) = false
is_hex_text (suc n) (String.◌∷◌ c s) = is_hex (code c) && is_hex_text n s

unfoldable pub is_sha256 : String → Bool
unfolding is_hex_text
is_sha256 s = is_hex_text 64 s

abbrev pub all_option {ℓ} : {A : Type ℓ} → (A → Bool) → Option A → Bool
all_option f none = true
all_option f (some a) = f a

-- Equality of optional texts.
abbrev pub option_eq : Option String → Option String → Bool
option_eq none none = true
option_eq none (some b) = false
option_eq (some a) none = false
option_eq (some a) (some b) = str_eq a b

abbrev pub xor : Bool → Bool → Bool
xor true b = not b
xor false b = b

-- A mapping from texts, as its items.
abbrev pub Mapping {ℓ} : Type ℓ → Type ℓ
Mapping A = List (String × A)

module _ {ℓ} {A : Type ℓ} where
  unfoldable pub lookup : Mapping A → String → Option A
  lookup [] k = none
  lookup ((k', a) ∷ m) k = let rest = lookup m k in if str_eq k' k then some a else rest

  unfoldable pub all_entries : (String → A → Bool) → Mapping A → Bool
  all_entries f [] = true
  all_entries f ((k, a) ∷ m) = f k a && all_entries f m

  unfoldable pub is_empty_mapping : Mapping A → Bool
  is_empty_mapping [] = true
  is_empty_mapping (x ∷ m) = false

module _ {ℓ κ} {A : Type ℓ} {B : Type κ} where
  -- `set(m) == set(n)`
  unfoldable pub same_keys : Mapping A → Mapping B → Bool
  unfolding all_entries lookup
  same_keys m n =
      all_entries (λ k _. is_some (lookup n k)) m && all_entries (λ k _. is_some (lookup m k)) n

pub record SelectionConfidenceThresholds : Type 0 where
  pub model_type : String
  pub gmm_probability_min : Option Decimal
  pub gmm_margin_min : Option Decimal
  pub kmeans_max_standardized_distances : Mapping Decimal

module _ ⦃context : Context⦄ where
  -- `_probability`
  abbrev pub out_of_unit : Option Decimal → Bool
  out_of_unit none = false
  out_of_unit (some x) = ltb_ℤ x (pos 0) || ltb_ℤ (literal 1 1) x

  -- The loop over the distances: first the fingerprint, then the distance.
  unfoldable pub check_distances : Mapping Decimal → Result (Unit {0})
  check_distances [] = ok tt
  check_distances ((fingerprint, distance) ∷ m) = do
    refuse_if (not (is_canonical fingerprint))
        "KMeans threshold fingerprint must be a nonempty canonical string"
    refuse_if (ltb_ℤ distance (pos 0)) "KMeans maximum distance must be finite and nonnegative"
    check_distances m

  -- `SelectionConfidenceThresholds.__post_init__`
  unfoldable pub check_thresholds :
      SelectionConfidenceThresholds → Result SelectionConfidenceThresholds
  check_thresholds t =
      if str_eq t.model_type "gmm"
      then (do
        refuse_if (is_none t.gmm_probability_min || is_none t.gmm_margin_min)
            "GMM confidence thresholds are required"
        refuse_if (out_of_unit t.gmm_probability_min)
            "gmm_probability_min must be finite and between zero and one"
        refuse_if (out_of_unit t.gmm_margin_min)
            "gmm_margin_min must be finite and between zero and one"
        refuse_if (not (is_empty_mapping t.kmeans_max_standardized_distances))
            "GMM thresholds cannot contain KMeans distances"
        ok t)
      else if str_eq t.model_type "kmeans"
      then (do
        refuse_if (is_empty_mapping t.kmeans_max_standardized_distances)
            "KMeans maximum distances are required"
        check_distances t.kmeans_max_standardized_distances
        refuse_if (is_some t.gmm_probability_min || is_some t.gmm_margin_min)
            "KMeans thresholds cannot contain GMM probabilities"
        ok t)
      else (do refuse_if true "confidence threshold model type must be gmm or kmeans"; ok t)

pub record SelectionArtifactSnapshot : Type 0 where
  pub model_artifact_hash : String
  pub mapping_artifact_hash : String
  pub cluster_strategy_mapping : Mapping (Option String)
  pub model_type : String
  pub confidence_thresholds : SelectionConfidenceThresholds
  pub artifact_identity : String

-- The loop over the mapping: first the fingerprint, then the strategy.
unfoldable pub check_mapping : Mapping (Option String) → Result (Unit {0})
check_mapping [] = ok tt
check_mapping ((fingerprint, strategy) ∷ m) = do
  refuse_if (not (is_canonical fingerprint))
      "mapping fingerprint must be a nonempty canonical string"
  refuse_if (not (all_option is_canonical strategy))
      "strategy profile id must be a nonempty canonical string"
  check_mapping m

-- The check of an identity that the caller gives.
unfoldable pub check_identity : Option String → String → Result (Unit {0})
check_identity none computed = ok tt
check_identity (some identity) computed = do
  refuse_if (not (is_sha256 identity)) "artifact_identity must be a lowercase SHA256 hash"
  refuse_if (not (str_eq identity computed)) "artifact identity does not match snapshot content"

module _ (snapshot_digest : SelectionArtifactSnapshot → String) where
  -- `SelectionArtifactSnapshot.__post_init__`: `s` holds the arguments except the identity, which is
  -- then the digest of the content.
  unfoldable pub make_snapshot :
      SelectionArtifactSnapshot → Option String → Result SelectionArtifactSnapshot
  make_snapshot s identity = do
    refuse_if (not (is_sha256 s.model_artifact_hash))
        "model_artifact_hash must be a lowercase SHA256 hash"
    refuse_if (not (is_sha256 s.mapping_artifact_hash))
        "mapping_artifact_hash must be a lowercase SHA256 hash"
    refuse_if (not (str_eq s.model_type "gmm" || str_eq s.model_type "kmeans"))
        "model type must be gmm or kmeans"
    refuse_if (not (str_eq s.confidence_thresholds.model_type s.model_type))
        "confidence threshold model type must match snapshot model type"
    refuse_if (is_empty_mapping s.cluster_strategy_mapping)
        "cluster strategy mapping cannot be empty"
    check_mapping s.cluster_strategy_mapping
    refuse_if
        (str_eq s.model_type "kmeans"
          && not (
              same_keys s.confidence_thresholds.kmeans_max_standardized_distances
                s.cluster_strategy_mapping))
        "KMeans threshold keys must match cluster mapping keys"
    let computed = snapshot_digest s
    check_identity identity computed
    ok (record s { artifact_identity = computed })
