-- ===== src/Regime/Audit.antt =====
-- domain/regime/selection.py: audit records, and results that carry one. The path to a value in the
-- messages of `_freeze_audit_value` is left out.
use gptrader_mw_v.Prelude.{
  Bool, false, not, ◌&&◌, String, str_eq, Option, some, List, [], ◌∷◌, Result, ok, err, value_error,
  ◌>>=◌, ◌>>◌, refuse_if, or_raise, is_canonical, if◌then◌else◌,
}
use gptrader_mw_v.Regime.Selection.{SelectStrategyResult}
use gptrader_mw_v.Regime.Json.{
  Json, null, boolean, text, integer, float, constant, array, object, Items, nil, cons, Fields, end,
  field, Library, get_field, same_keys, check_hooks, as_object,
}

-- `_freeze_audit_value`, which copies the value or refuses it.
unfoldable mutual
  pub freeze_audit_value : Json → Result (Unit {0})
  freeze_audit_value null = ok tt
  freeze_audit_value (boolean b) = ok tt
  freeze_audit_value (text s) = ok tt
  freeze_audit_value (integer n) = ok tt
  freeze_audit_value (float x) = ok tt
  freeze_audit_value (constant name) = err (value_error "audit contains a nonfinite number")
  freeze_audit_value (array xs) = freeze_items xs
  freeze_audit_value (object fs) = freeze_fields fs

  pub freeze_items : Items → Result (Unit {0})
  freeze_items nil = ok tt
  freeze_items (cons x xs) = do freeze_audit_value x; freeze_items xs

  pub freeze_fields : Fields → Result (Unit {0})
  freeze_fields end = ok tt
  freeze_fields (field k v fs) = do
    refuse_if (not (is_canonical k)) "audit keys must be canonical strings"
    freeze_audit_value v
    freeze_fields fs

pub record SelectionAuditRecord : Type 0 where
  pub audit_type : String
  pub schema_version : String
  pub payload : Fields
  pub canonical_json : String
  pub audit_hash : String

abbrev pub envelope_keys : List String
envelope_keys = "audit_type" ∷ "payload" ∷ "schema_version" ∷ []

-- The object that `canonical_json` is the text of.
abbrev pub envelope : String → String → Fields → Json
envelope audit_type schema_version payload = object (
    field "audit_type" (text audit_type)
      (field "payload" (object payload) (field "schema_version" (text schema_version) end)))

abbrev pub canonical_text : Option Json → String → Result String
canonical_text (some (text s)) message =
    if not (is_canonical s) then err (value_error message) else ok s
canonical_text _ message = err (value_error message)

abbrev pub mapping_of : Option Json → Result Fields
mapping_of (some (object fs)) = ok fs
mapping_of _ = err (value_error "audit payload must be a mapping")

pub record AuditedSelectStrategyResult : Type 0 where
  pub base_result : SelectStrategyResult
  pub audit_record : SelectionAuditRecord

abbrev pub is_text : Option Json → String → Bool
is_text (some (text s)) t = str_eq s t
is_text _ t = false

-- `AuditedSelectStrategyResult.__post_init__`
unfoldable pub make_audited :
    SelectStrategyResult → SelectionAuditRecord → Result AuditedSelectStrategyResult
make_audited result audit = do
  refuse_if
      (not (is_text (get_field audit.payload "selection_input_hash") result.selection_input_hash))
      "audit selection input hash must match the base result"
  ok (record { base_result = result; audit_record = audit })

module _ (library : Library) where
  -- `SelectionAuditRecord.__post_init__`
  unfoldable pub make_audit_record :
      Option Json → Option Json → Option Json → Result SelectionAuditRecord
  make_audit_record audit_type schema_version payload = do
    kind ← canonical_text audit_type "audit_type must be a nonempty canonical string"
    version ← canonical_text schema_version "schema_version must be a nonempty canonical string"
    fields ← mapping_of payload
    freeze_fields fields
    let canonical_json = library.dumps (envelope kind version fields)
    ok (record {
      audit_type = kind;
      schema_version = version;
      payload = fields;
      canonical_json = canonical_json;
      audit_hash = library.sha256 canonical_json;
    })

  -- `SelectionAuditRecord.from_json`
  unfoldable pub audit_from_json : String → Result SelectionAuditRecord
  audit_from_json encoded = do
    payload ← or_raise (library.loads encoded) (value_error "selection audit JSON is invalid")
    check_hooks "selection audit" payload
    fields ← or_raise (as_object payload) (value_error "selection audit envelope keys are invalid")
    refuse_if (not (same_keys fields envelope_keys)) "selection audit envelope keys are invalid"
    audit ←
        make_audit_record (get_field fields "audit_type") (get_field fields "schema_version")
          (get_field fields "payload")
    refuse_if (not (str_eq audit.canonical_json encoded)) "selection audit JSON is not canonical"
    ok audit

-- Equality of audit records: what else they hold is what `canonical_json` is the text of.
abbrev pub audit_eq : SelectionAuditRecord → SelectionAuditRecord → Bool
audit_eq a b = str_eq a.canonical_json b.canonical_json && str_eq a.audit_hash b.audit_hash
