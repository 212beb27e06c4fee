-- ===== src/Regime/Json.antt =====
-- JSON values as `json.loads` gives them, and the checks that the source makes while it loads. What
-- the standard library computes on texts and times is an argument: `json.dumps` with the options
-- that all callers share, `json.loads`, `hashlib.sha256`, `isoformat` and `fromisoformat`.
use gptrader_mw_v.Prelude.{
  Bool, true, false, not, ◌&&◌, ◌||◌, String, str_eq, Option, none, some, List, [], ◌∷◌, Result, ok,
  err, value_error, ◌>>=◌, ◌>>◌, refuse_if, or_raise, ℤ, if◌then◌else◌,
}
use Prim.Native.String
use gptrader_mw_v.Decimal.{Decimal}
use gptrader_mw_v.Regime.Temporal.{Timestamp}

-- `constant` is a number that is not finite; `json.loads` hands its name to `parse_constant`.
mutual
  pub data Json : Type 0 where
    null : Json
    boolean : Bool → Json
    text : String → Json
    integer : ℤ → Json
    float : Decimal → Json
    constant : String → Json
    array : Items → Json
    object : Fields → Json

  pub data Items : Type 0 where
    nil : Items
    cons : Json → Items → Items

  pub data Fields : Type 0 where
    end : Fields
    field : String → Json → Fields → Fields

pub record Library : Type 0 where
  pub upper : String → String
  pub dumps : Json → String
  pub loads : String → Option Json
  pub sha256 : String → String
  pub isoformat : Timestamp → String
  pub fromisoformat : String → Option Timestamp

unfoldable pub get_field : Fields → String → Option Json
get_field end k = none
get_field (field j v fs) k = let rest = get_field fs k in if str_eq j k then some v else rest

abbrev pub has_field : Fields → String → Bool
has_field fs k = elim (get_field fs k) [ none ↦ false | some v ↦ true ]

unfoldable pub among : String → List String → Bool
among j [] = false
among j (k ∷ ks) = str_eq k j || among j ks

-- Every name is one of the list.
unfoldable pub all_among : Fields → List String → Bool
unfolding among
all_among end ks = true
all_among (field j v fs) ks = among j ks && all_among fs ks

unfoldable pub has_all : Fields → List String → Bool
unfolding get_field
has_all fs [] = true
has_all fs (k ∷ ks) = has_field fs k && has_all fs ks

-- `set(payload) == keys`
unfoldable pub same_keys : Fields → List String → Bool
unfolding all_among has_all
same_keys fs ks = all_among fs ks && has_all fs ks

-- Whether `object_pairs_hook` meets a name twice.
unfoldable pub has_duplicates : Fields → Bool
unfolding get_field
has_duplicates end = false
has_duplicates (field j v fs) = has_field fs j || has_duplicates fs

-- What the hooks refuse, inner values first, and `label` is the start of their messages.
unfoldable mutual
  unfolding has_duplicates

  pub check_hooks : String → Json → Result (Unit {0})
  check_hooks label null = ok tt
  check_hooks label (boolean b) = ok tt
  check_hooks label (text s) = ok tt
  check_hooks label (integer n) = ok tt
  check_hooks label (float x) = ok tt
  check_hooks label (constant name) =
      err
        (value_error (String.◌++◌ label (String.◌++◌ " JSON contains nonstandard constant " name)))
  check_hooks label (array xs) = check_items label xs
  check_hooks label (object fs) = do
    check_fields label fs
    refuse_if (has_duplicates fs) (String.◌++◌ label " JSON contains duplicate keys")

  pub check_items : String → Items → Result (Unit {0})
  check_items label nil = ok tt
  check_items label (cons x xs) = do check_hooks label x; check_items label xs

  pub check_fields : String → Fields → Result (Unit {0})
  check_fields label end = ok tt
  check_fields label (field k v fs) = do check_hooks label v; check_fields label fs

module _ (library : Library) where
  -- `_strict_loads`
  unfoldable pub strict_loads : String → String → Result Json
  strict_loads payload label = do
    decoded ← or_raise (library.loads payload) (value_error (String.◌++◌ label " JSON is invalid"))
    check_hooks label decoded
    refuse_if (not (str_eq (library.dumps decoded) payload))
        (String.◌++◌ label " JSON is not canonical")
    ok decoded

-- The readers that a constructor's checks of classes amount to.
abbrev pub as_text : Json → Option String
as_text (text s) = some s
as_text _ = none

abbrev pub as_object : Json → Option Fields
as_object (object fs) = some fs
as_object _ = none

abbrev pub as_array : Json → Option Items
as_array (array xs) = some xs
as_array _ = none
