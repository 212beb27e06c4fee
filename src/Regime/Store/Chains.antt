-- ===== src/Regime/Store/Chains.antt =====
-- The versions that the events of a symbol lead through, and the rows of the states.
use gptrader_mw_v.Prelude.{
  ℕ, suc, true, false, ◌≡◌, refl, inl, inr, String, str_eq, eq_iff, eq_refl, Option, none, some,
  List, [], ◌∷◌, ◌++◌, Bool-cases, arith, if◌then◌else◌,
}
use gptrader_mw_v.Regime.Rows.{StateRow, EventRow, Database, select_state, update_states}

-- The events of a symbol take its version from one number to another, one at a time.
pub data Chain (symbol : String) : List EventRow → ℕ → ℕ → Type 0 where
  empty : (n : ℕ) → Chain symbol [] n n
  other :
      (row : EventRow) {rows : List EventRow} {n m : ℕ}
      → str_eq row.symbol symbol ≡ false
      → Chain symbol rows n m
      → Chain symbol (row ∷ rows) n m
  entry :
      (row : EventRow) {rows : List EventRow} {n m : ℕ}
      → str_eq row.symbol symbol ≡ true
      → row.expected_version ≡ n
      → row.committed_version ≡ suc n
      → Chain symbol rows (suc n) m
      → Chain symbol (row ∷ rows) n m

abbrev pub version_of : Option StateRow → ℕ
version_of none = 0
version_of (some row) = row.state_version

-- The events of every symbol lead from nothing to the version of its stored state.
abbrev pub IsConsistent : Database → Type 0
IsConsistent db =
    (symbol : String) → Chain symbol db.events 0 (version_of (select_state db.states symbol))

pub Chain-other :
    (symbol : String) {rows : List EventRow} {n m : ℕ} (row : EventRow)
    → str_eq row.symbol symbol ≡ false
    → Chain symbol rows n m
    → Chain symbol (rows ++ row ∷ []) n m
Chain-other symbol row h (empty n) = other row h (empty n)
Chain-other symbol row h (other r k c) = other r k (Chain-other symbol row h c)
Chain-other symbol row h (entry r k e d c) = entry r k e d (Chain-other symbol row h c)

pub Chain-entry :
    (symbol : String) {rows : List EventRow} {n m : ℕ} (row : EventRow)
    → str_eq row.symbol symbol ≡ true
    → row.expected_version ≡ m
    → row.committed_version ≡ suc m
    → Chain symbol rows n m
    → Chain symbol (rows ++ row ∷ []) n (suc m)
Chain-entry symbol row h e d (empty n) = entry row h e d (empty (suc n))
Chain-entry symbol row h e d (other r k c) = other r k (Chain-entry symbol row h e d c)
Chain-entry symbol row h e d (entry r k e' d' c) = entry r k e' d' (Chain-entry symbol row h e d c)

pub select_state-append :
    (rows : List StateRow) (new : StateRow) (symbol : String)
    → select_state (rows ++ new ∷ []) symbol ≡ elim (select_state rows symbol) [
      | some row ↦ some row
      | none ↦ (if str_eq new.symbol symbol then some new else none)
    ]
unfolding select_state
select_state-append [] new symbol = ground arith
select_state-append (row ∷ rows) new symbol =
    ground (arith, eq_iff new.symbol symbol, select_state-append rows new symbol)

pub select_state-update :
    (rows : List StateRow) (new : StateRow) (expected : ℕ) (row : StateRow)
    → select_state rows new.symbol ≡ some row
    → row.state_version ≡ expected
    → select_state (update_states rows new expected).0 new.symbol ≡ some new
unfolding select_state update_states
select_state-update [] new expected row h v = cc
select_state-update (r ∷ rows) new expected row h v =
    elim (Bool-cases (str_eq r.symbol new.symbol)) [
      | inl same ↦ ground (arith, eq_refl new.symbol)
      | inr differs ↦ ground (arith, select_state-update rows new expected row)
    ]

pub select_state-update_other :
    (rows : List StateRow) (new : StateRow) (expected : ℕ) (symbol : String)
    → str_eq new.symbol symbol ≡ false
    → select_state (update_states rows new expected).0 symbol ≡ select_state rows symbol
unfolding select_state update_states
select_state-update_other [] new expected symbol h = refl
select_state-update_other (r ∷ rows) new expected symbol h = ground (
  arith,
  select_state-update_other rows new expected symbol,
  eq_iff r.symbol new.symbol,
  eq_iff r.symbol symbol,
  eq_iff new.symbol symbol,
)
