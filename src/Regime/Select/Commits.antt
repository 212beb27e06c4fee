-- ===== src/Regime/Select/Commits.antt =====
-- One step of the selector, and the steps by what they commit.
use gptrader_mw_v.Prelude.{
  suc, ◌+◌, ◌≤◌, Bool, true, false, not, ◌&&◌, ◌≡◌, ◌⊎◌, refl, inl, inr, String, str_eq, eq_refl,
  Option, none, some, [], ◌∷◌, ◌++◌, is_some, leb, arith, if◌then◌else◌,
}
use gptrader_mw_v.Regime.Selection.{
  classification, entry_suspended, cluster_transition, cash_transition, artifact_replaced,
  RegimeSelectionState,
}
use gptrader_mw_v.Regime.Artifacts.{option_eq, lookup}
use gptrader_mw_v.Regime.Selection.States.{IsValid}
use gptrader_mw_v.Regime.Parts.{
  SelectionEvents, strategy_events, or_classification, state_of, min_ℕ,
}
use gptrader_mw_v.Regime.Observations.{SelectStrategyCommand}
use gptrader_mw_v.Regime.Select.Events.{expected, expected_events, option_eq_refl, option_eq-sym}
use gptrader_mw_v.Regime.Select.Made.{Fits, commit, commit-IsValid, await, unsure}

module _ (upper : String → String) where
  -- One step of the selector from a state, on an observation of high confidence or not.
  pub record Step (p : RegimeSelectionState) (c : SelectStrategyCommand) (high : Bool)
      (s : RegimeSelectionState) (es : SelectionEvents) : Type 0 where
    pub valid : IsValid upper s
    pub version : s.state_version ≡ suc p.state_version
    pub symbol : s.symbol ≡ c.symbol
    pub time : s.last_boundary_at ≡ c.boundary_at
    pub events : es ≡ expected_events p s
    pub enabled : s.new_entries_enabled ≡ true → high ≡ true
    pub unsure :
        high ≡ false
        → (s.artifact_version ≡ p.artifact_version)
          × (s.current_cluster_fingerprint ≡ p.current_cluster_fingerprint)
          × (s.consecutive_low_confidence_count ≡ min_ℕ (suc p.consecutive_low_confidence_count) 2)
    pub moved :
        option_eq p.current_cluster_fingerprint s.current_cluster_fingerprint ≡ false
        → (s.current_cluster_fingerprint ≡ some c.assignment.fingerprint)
          × (p.pending_cluster_fingerprint ≡ some c.assignment.fingerprint)
          × (high ≡ true)
    pub replaced :
        str_eq p.artifact_version s.artifact_version ≡ false
        → (s.artifact_version ≡ c.artifact_snapshot.artifact_identity)
          × (p.pending_artifact_version ≡ some c.artifact_snapshot.artifact_identity)
          × (p.pending_cluster_fingerprint ≡ some c.assignment.fingerprint)
          × (high ≡ true)
    pub chosen :
        option_eq p.active_strategy_profile_id s.active_strategy_profile_id ≡ false
        → ((lookup c.artifact_snapshot.cluster_strategy_mapping c.assignment.fingerprint
              ≡ some s.active_strategy_profile_id)
            × (s.current_cluster_fingerprint ≡ some c.assignment.fingerprint)
            × (high ≡ true))
          ⊎ ((s.active_strategy_profile_id ≡ none)
              × (1 ≤ p.consecutive_low_confidence_count)
              × (high ≡ false))

  pub commit_same :
      (p : RegimeSelectionState) (c : SelectStrategyCommand)
      → c.previous_state ≡ some p
      → IsValid upper p
      → (f : Fits upper c) → p.current_cluster_fingerprint ≡ some c.assignment.fingerprint
      → Step p c true
          (state_of c (commit upper c p.artifact_version f.strategy))
          (or_classification (strategy_events p.active_strategy_profile_id f.strategy))
  unfolding expected_events expected strategy_events
  commit_same p c hp v f same = record {
    valid = commit-IsValid upper c p.artifact_version f v.artifact;
    version = rw hp (omega arith);
    symbol = refl;
    time = refl;
    events = ground (
      arith,
      v.consistent.cash,
      eq_refl p.artifact_version,
      option_eq_refl (some c.assignment.fingerprint),
    );
    enabled = λ h. refl;
    unsure = λ h. cc;
    moved = λ h. ground (arith, option_eq_refl (some c.assignment.fingerprint));
    replaced = λ h. ground (arith, eq_refl p.artifact_version);
    chosen = λ h. inl (f.mapped, refl, refl);
  }

  pub commit_moved :
      (p : RegimeSelectionState) (c : SelectStrategyCommand)
      → c.previous_state ≡ some p
      → IsValid upper p
      → (f : Fits upper c)
      → option_eq (some c.assignment.fingerprint) p.current_cluster_fingerprint ≡ false
      → p.pending_cluster_fingerprint ≡ some c.assignment.fingerprint
      → Step p c true
          (state_of c (commit upper c p.artifact_version f.strategy))
          (cluster_transition ∷ strategy_events p.active_strategy_profile_id f.strategy)
  unfolding expected_events expected strategy_events
  commit_moved p c hp v f other waiting = record {
    valid = commit-IsValid upper c p.artifact_version f v.artifact;
    version = rw hp (omega arith);
    symbol = refl;
    time = refl;
    events = ground (
      arith,
      v.consistent.cash,
      eq_refl p.artifact_version,
      option_eq-sym p.current_cluster_fingerprint (some c.assignment.fingerprint),
    );
    enabled = λ h. refl;
    unsure = λ h. cc;
    moved = λ h. (refl, waiting, refl);
    replaced = λ h. ground (arith, eq_refl p.artifact_version);
    chosen = λ h. inl (f.mapped, refl, refl);
  }

  pub commit_replaced :
      (p : RegimeSelectionState) (c : SelectStrategyCommand)
      → c.previous_state ≡ some p
      → IsValid upper p
      → (f : Fits upper c) → str_eq p.artifact_version c.artifact_snapshot.artifact_identity ≡ false
      → p.pending_cluster_fingerprint ≡ some c.assignment.fingerprint
      → p.pending_artifact_version ≡ some c.artifact_snapshot.artifact_identity
      → Step p c true
          (state_of c (commit upper c c.artifact_snapshot.artifact_identity f.strategy))
          (artifact_replaced
            ∷ ((if not (option_eq p.current_cluster_fingerprint (some c.assignment.fingerprint))
                  then cluster_transition ∷ []
                  else [])
                ++ strategy_events p.active_strategy_profile_id f.strategy))
  unfolding expected_events expected strategy_events
  commit_replaced p c hp v f other waiting replacement = record {
    valid = commit-IsValid upper c c.artifact_snapshot.artifact_identity f f.identity;
    version = rw hp (omega arith);
    symbol = refl;
    time = refl;
    events = ground arith;
    enabled = λ h. refl;
    unsure = λ h. cc;
    moved = λ h. (refl, waiting, refl);
    replaced = λ h. (refl, replacement, waiting, refl);
    chosen = λ h. inl (f.mapped, refl, refl);
  }

  pub awaited :
      (p : RegimeSelectionState) (c : SelectStrategyCommand) (replacement : Option String)
      (entries : Bool)
      → c.previous_state ≡ some p
      → IsValid upper (state_of c (await upper p c replacement entries))
      → Step p c true (state_of c (await upper p c replacement entries)) (
          if p.new_entries_enabled && not entries
          then entry_suspended ∷ []
          else classification ∷ [])
  unfolding expected_events expected
  awaited p c replacement entries hp v = record {
    valid = v;
    version = rw hp (omega arith);
    symbol = refl;
    time = refl;
    events = rw (eq_refl p.artifact_version) (
        rw (option_eq_refl p.current_cluster_fingerprint)
          (rw (option_eq_refl p.active_strategy_profile_id) refl));
    enabled = λ h. refl;
    unsure = λ h. cc;
    moved = λ h. ground (arith, option_eq_refl p.current_cluster_fingerprint);
    replaced = λ h. ground (arith, eq_refl p.artifact_version);
    chosen = λ h. ground (arith, option_eq_refl p.active_strategy_profile_id);
  }

  abbrev pub low_events : RegimeSelectionState → SelectionEvents
  low_events p =
      if leb 2 (min_ℕ (p.consecutive_low_confidence_count + 1) 2)
      then (if is_some p.active_strategy_profile_id
          then cash_transition ∷ []
          else classification ∷ [])
      else (if p.new_entries_enabled then entry_suspended ∷ [] else classification ∷ [])

  pub unsure-Step :
      (p : RegimeSelectionState) (c : SelectStrategyCommand)
      → c.previous_state ≡ some p
      → IsValid upper p
      → IsValid upper (state_of c (unsure upper p c))
      → Step p c false (state_of c (unsure upper p c)) (low_events p)
  unfolding expected_events expected
  unsure-Step p c hp v w = record {
    valid = w;
    version = rw hp (omega arith);
    symbol = refl;
    time = refl;
    events = rw (eq_refl p.artifact_version) (
        rw (option_eq_refl p.current_cluster_fingerprint)
          (ground (arith, v.consistent.low_suspends, option_eq_refl p.active_strategy_profile_id)));
    enabled = λ h. cc;
    unsure = λ h. (refl, refl, ground arith);
    moved = λ h. ground (arith, option_eq_refl p.current_cluster_fingerprint);
    replaced = λ h. ground (arith, eq_refl p.artifact_version);
    chosen = λ h. inr (
      ground (arith, option_eq_refl p.active_strategy_profile_id),
      ground (arith, option_eq_refl p.active_strategy_profile_id),
      refl,
    );
  }
