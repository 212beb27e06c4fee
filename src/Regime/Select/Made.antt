-- ===== src/Regime/Select/Made.antt =====
-- The states that the transitions make are valid.
use gptrader_mw_v.Prelude.{
  ◌+◌, Bool, true, false, ◌≡◌, refl, inl, inr, String, str_eq, Option, none, some, ok, is_some,
  is_canonical, leb, arith, if◌then◌else◌,
}
use gptrader_mw_v.Regime.Temporal.{is_regime_boundary}
use gptrader_mw_v.Regime.Selection.{RegimeSelectionState}
use gptrader_mw_v.Regime.Artifacts.{option_eq, all_option, is_sha256, lookup}
use gptrader_mw_v.Regime.Selection.States.{Consistent, IsValid, check_state-accepts}
use gptrader_mw_v.Regime.Parts.{StateParts, parts, state_of, min_ℕ}
use gptrader_mw_v.Regime.Select.{make_state}
use gptrader_mw_v.Regime.Observations.{SelectStrategyCommand}

module _ (upper : String → String) where
  -- What a command provides that its constructor and the one of its snapshot accept.
  pub record Fits (c : SelectStrategyCommand) : Type 0 where
    pub symbol : is_canonical c.symbol ≡ true
    pub uppercase : str_eq c.symbol (upper c.symbol) ≡ true
    pub boundary : is_regime_boundary c.boundary_at ≡ true
    pub identity : is_sha256 c.artifact_snapshot.artifact_identity ≡ true
    pub fingerprint : is_canonical c.assignment.fingerprint ≡ true
    pub strategy : Option String
    pub mapped :
        lookup c.artifact_snapshot.cluster_strategy_mapping c.assignment.fingerprint ≡ some strategy
    pub strategy_canonical : all_option is_canonical strategy ≡ true

  -- The fields of a new state that its constructor checks one by one.
  pub record Texts (k : StateParts) : Type 0 where
    pub artifact : is_sha256 k.artifact ≡ true
    pub current : all_option is_canonical k.current ≡ true
    pub active : all_option is_canonical k.active ≡ true
    pub pending : all_option is_canonical k.pending_cluster ≡ true
    pub replacement : all_option is_sha256 k.pending_artifact ≡ true

  pub made-IsValid :
      (c : SelectStrategyCommand) (k : StateParts)
      → Fits c
      → Texts k
      → Consistent (state_of c k)
      → IsValid upper (state_of c k)
  made-IsValid c k f t s = record {
    symbol = f.symbol;
    uppercase = f.uppercase;
    artifact = t.artifact;
    current = t.current;
    active = t.active;
    pending = t.pending;
    replacement = t.replacement;
    boundary = f.boundary;
    consistent = s;
  }

  pub make_state-accepts :
      (c : SelectStrategyCommand) (k : StateParts)
      → IsValid upper (state_of c k)
      → make_state upper c k ≡ ok (state_of c k)
  unfolding make_state
  make_state-accepts c k v = check_state-accepts upper (state_of c k) v

  -- The state that commits the cluster and strategy of an observation.
  abbrev pub commit : SelectStrategyCommand → String → Option String → StateParts
  commit c artifact strategy = record (parts artifact (some c.assignment.fingerprint) strategy) {
    entries = is_some strategy;
  }

  pub commit-IsValid :
      (c : SelectStrategyCommand) (artifact : String) (f : Fits c)
      → is_sha256 artifact ≡ true
      → IsValid upper (state_of c (commit c artifact f.strategy))
  commit-IsValid c artifact f h =
      made-IsValid c (commit c artifact f.strategy) f
        (record {
          artifact = h;
          current = f.fingerprint;
          active = f.strategy_canonical;
          pending = refl;
          replacement = refl;
        })
        (record {
          pending = inl (refl, refl);
          replacement_differs = refl;
          replacement_pending = λ h. cc;
          replacement_suspends = λ h. cc;
          low_alone = λ h. refl;
          low_bound = omega arith;
          low_suspends = λ h. absurd (omega arith);
          low_cash = λ h. absurd (omega arith);
          selected = λ h. cc;
          cash = λ h. ground arith;
        })

  -- The state that keeps what is committed and waits for a confirmation.
  abbrev pub await :
      RegimeSelectionState → SelectStrategyCommand → Option String → Bool → StateParts
  await p c replacement entries =
      record (parts p.artifact_version p.current_cluster_fingerprint p.active_strategy_profile_id) {
        pending_cluster = some c.assignment.fingerprint;
        pending_count = 1;
        pending_artifact = replacement;
        entries = entries;
      }

  pub await-IsValid :
      (p : RegimeSelectionState) (c : SelectStrategyCommand) (replacement : Option String)
      (entries : Bool)
      → IsValid upper p
      → Fits c
      → all_option is_sha256 replacement ≡ true
      → option_eq replacement (some p.artifact_version) ≡ false
      → (is_some replacement ≡ true → entries ≡ false)
      → (entries ≡ true → p.new_entries_enabled ≡ true)
      → IsValid upper (state_of c (await p c replacement entries))
  await-IsValid p c replacement entries v f hr differs suspends fewer =
      let u = v.consistent in
      made-IsValid c (await p c replacement entries) f
        (record {
          artifact = v.artifact;
          current = v.current;
          active = v.active;
          pending = f.fingerprint;
          replacement = hr;
        })
        (record {
          pending = inr (refl, refl);
          replacement_differs = differs;
          replacement_pending = λ h. refl;
          replacement_suspends = suspends;
          low_alone = λ h. absurd (omega arith);
          low_bound = omega arith;
          low_suspends = λ h. absurd (omega arith);
          low_cash = λ h. absurd (omega arith);
          selected = u.selected;
          cash = λ h. ground (arith, u.cash h, fewer);
        })

  -- The state after an observation of low confidence.
  abbrev pub unsure : RegimeSelectionState → SelectStrategyCommand → StateParts
  unsure p c =
      let n = min_ℕ (p.consecutive_low_confidence_count + 1) 2 in
      record (parts p.artifact_version p.current_cluster_fingerprint
        (if leb 2 n then none else p.active_strategy_profile_id)) { low_count = n }

  pub unsure-IsValid :
      (p : RegimeSelectionState) (c : SelectStrategyCommand)
      → IsValid upper p
      → Fits c
      → IsValid upper (state_of c (unsure p c))
  unsure-IsValid p c v f =
      let u = v.consistent in
      made-IsValid c (unsure p c) f
        (record {
          artifact = v.artifact;
          current = v.current;
          active = ground (arith, v.active);
          pending = refl;
          replacement = refl;
        })
        (record {
          pending = inl (refl, refl);
          replacement_differs = refl;
          replacement_pending = λ h. cc;
          replacement_suspends = λ h. refl;
          low_alone = λ h. refl;
          low_bound = ground arith;
          low_suspends = λ h. refl;
          low_cash = λ h. ground arith;
          selected = λ h. ground (arith, u.selected);
          cash = λ h. refl;
        })
