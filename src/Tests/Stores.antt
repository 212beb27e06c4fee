-- ===== src/Tests/Stores.antt =====
-- The theorems on the store of selections and on its scheduler, applied.
use gptrader_mw_v.Prelude.{
  ℤ, pos, negsuc, suc, str_ℕ, ◌==◌, Result, true, false, ◌≡◌, refl, String, str_eq, Option, none,
  some, [], ◌∷◌, ok, err, value_error, if◌then◌else◌, strip, is_empty,
}
use Prim.Native.String
use gptrader_mw_v.Regime.Temporal.{Timestamp}
use gptrader_mw_v.Regime.Artifacts.{is_sha256}
use gptrader_mw_v.Regime.Selection.{SelectStrategyResult, classification, check_result}
use gptrader_mw_v.Regime.Json.{
  Json, null, boolean, text, integer, float, constant, array, object, Items, nil, cons, Fields, end,
  field, Library,
}
use gptrader_mw_v.Regime.Payloads.{
  canonical_symbol, utc_iso, event_items, state_payload, result_payload, decode_result,
}
use gptrader_mw_v.Regime.Payloads.Decoded.{Reads, decode_result-encode}
use gptrader_mw_v.Regime.Rows.{Database, select_state, select_event}
use gptrader_mw_v.Regime.Store.{
  plain, commit_with, prepare, transact, commit_new, current_version, write_state,
}
use gptrader_mw_v.Regime.Store.Chains.{IsConsistent, empty}
use gptrader_mw_v.Regime.Store.Versions.{Extends, commit_with-IsConsistent}
use gptrader_mw_v.Regime.Store.Commits.{Stored, commit_with-Stored}
use gptrader_mw_v.Regime.Store.Queries.{find_committed_result}
use gptrader_mw_v.Regime.Store.Retries.{commit_with-again, decision_hash}
use gptrader_mw_v.Regime.Scheduler.{ScheduledRegimeSelection, Commands, run_selection}
use gptrader_mw_v.Tests.Regimes.{same, digest, boundary, state, state-IsValid}

abbrev decided : SelectStrategyResult
decided = record {
  expected_state_version = 0;
  state = state;
  events = classification ∷ [];
  evaluated_artifact_identity = digest;
  selection_input_hash = digest;
}

-- What `json.dumps` writes for values without characters to escape.
abbrev quoted : String → String
quoted s = String.◌++◌ "\"" (String.◌++◌ s "\"")

abbrev show_int : ℤ → String
show_int (pos n) = str_ℕ n
show_int (negsuc n) = String.◌++◌ "-" (str_ℕ (suc n))

unfoldable mutual
  unfolding str_ℕ

  show : Json → String
  show null = "null"
  show (boolean true) = "true"
  show (boolean false) = "false"
  show (text s) = quoted s
  show (integer n) = show_int n
  show (float x) = show_int x
  show (constant name) = name
  show (array xs) = String.◌++◌ "[" (String.◌++◌ (show_items xs) "]")
  show (object fs) = String.◌++◌ "{" (String.◌++◌ (show_fields fs) "}")

  show_items : Items → String
  show_items nil = ""
  show_items (cons x nil) = show x
  show_items (cons x (cons y xs)) = String.◌++◌ (show x) (String.◌++◌ "," (show_items (cons y xs)))

  show_fields : Fields → String
  show_fields end = ""
  show_fields (field k v end) = String.◌++◌ (quoted k) (String.◌++◌ ":" (show v))
  show_fields (field k v (field l w fs)) =
      String.◌++◌ (quoted k)
        (String.◌++◌ ":" (String.◌++◌ (show v) (String.◌++◌ "," (show_fields (field l w fs)))))

abbrev midnight : String
midnight = "0001-01-01T00:00:00+00:00"

-- `json.loads` on the three texts that the store writes for the result.
abbrev read : String → Option Json
read s =
    if str_eq s (show (array (event_items decided.events)))
    then some (array (event_items decided.events))
    else if str_eq s (show (result_payload decided midnight))
    then some (result_payload decided midnight)
    else if str_eq s (show (state_payload state midnight))
    then some (state_payload state midnight)
    else none

-- The text of a boundary, of which the first is read back.
abbrev iso_text : Timestamp → String
iso_text t = if t.instant == 0 then midnight else str_ℕ t.instant

abbrev library : Library
library = record {
  upper = same;
  dumps = show;
  loads = read;
  sha256 = λ s. s;
  isoformat = iso_text;
  fromisoformat = λ s. if str_eq s midnight then some (boundary 0) else none;
}

state_reads : Reads library (state_payload state midnight)
unfolding show event_items
state_reads = refl

result_reads : Reads library (result_payload decided midnight)
unfolding show event_items
result_reads = refl

event_reads : Reads library (array (event_items decided.events))
unfolding show event_items
event_reads = refl

decided-accepted : check_result decided ≡ ok decided
unfolding check_result is_sha256
decided-accepted = refl

abbrev nothing : Database
nothing = record { states = []; events = [] }

decode_result-encode_example :
    decode_result library (show (result_payload decided midnight)) ≡ ok decided
decode_result-encode_example =
    decode_result-encode library decided midnight state-IsValid decided-accepted refl result_reads

nothing-IsConsistent : IsConsistent nothing
unfolding select_state
nothing-IsConsistent symbol = empty 0

commit_with-IsConsistent_example :
    let db' = (commit_with library 0 decided none nothing).1 in
    IsConsistent db' × Extends nothing db'
commit_with-IsConsistent_example =
    commit_with-IsConsistent library 0 decided none nothing nothing-IsConsistent

absent : find_committed_result library "ETH" (boundary 0) digest nothing ≡ ok none
unfolding find_committed_result canonical_symbol is_empty strip utc_iso is_sha256 select_event
absent = refl

returned : (commit_with library 0 decided none nothing).0 ≡ ok (plain decided)
unfolding commit_with prepare canonical_symbol is_empty strip utc_iso transact select_event
    commit_new current_version select_state write_state
returned = refl

abbrev after : Database
after = (commit_with library 0 decided none nothing).1

-- What has been stored, for the theorems on retries.
stored :
    Stored library decided state-IsValid refl state_reads decided-accepted result_reads event_reads
      none after
      (commit_with library 0 decided none nothing).0
stored =
    commit_with-Stored library decided state-IsValid refl state_reads decided-accepted result_reads
      event_reads none nothing (plain decided) absent returned

commit_with-again_example : commit_with library 0 decided none after ≡ (
  (if str_eq (decision_hash library decided) (decision_hash library decided)
      then ok (plain decided)
      else err (value_error "conflicting boundary commit")),
  after,
)
commit_with-again_example =
    commit_with-again library decided decided none after
      (commit_with library 0 decided none nothing).0 state-IsValid refl state_reads decided-accepted
      result_reads event_reads stored state-IsValid decided-accepted
      (record { symbol = refl; boundary = refl; artifact = refl })

-- A command that is no more than its attributes.
abbrev commands : Commands SelectStrategyResult
commands = record {
  symbol = λ c. c.state.symbol;
  boundary_at = λ c. c.state.last_boundary_at;
  artifact_identity = λ c. c.evaluated_artifact_identity;
  input_hash = λ c. ok c.selection_input_hash;
  requires_audit = λ c. false;
}

-- The first run proposes the result; the second one has a selector that raises.
abbrev first_run : Result ScheduledRegimeSelection × Database
first_run =
    run_selection library commands (λ c. ok (plain decided)) "regime" "ETH" (λ s. ok decided)
      (boundary 1) (boundary 1) nothing
