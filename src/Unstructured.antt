-- ===== src/Unstructured.antt =====
-- The dynamic values of Go's encoding/json, map[string]interface{} and what stands in it, and the
-- accessors of k8s.io/apimachinery's package unstructured, which are parameters.
use kstone.Base.{
  ℕ, ◌≡◌, refl, ◌∙◌, Bool, false, Option, none, some, List, [], ◌∷◌, if◌then◌else◌, arith,
}
use kstone.Base.Text.{Text, text_eq, text_eq_iff}
use kstone.Base.Dict.{Dict}
use kstone.Interfaces.{Result, ok}

-- `int` holds the 64 bits of an int64.
mutual
  pub data Value : Type 0 where
    null : Value
    bool : Bool → Value
    int : ℕ → Value
    str : Text → Value
    arr : Values → Value
    obj : Fields → Value

  pub data Values : Type 0 where
    nil : Values
    cons : Value → Values → Values

  pub data Fields : Type 0 where
    end : Fields
    field : Text → Value → Fields → Fields

unfoldable pub get : Text → Fields → Option Value
get k end = none
get k (field j v fs) = if text_eq j k then some v else get k fs

-- m[k] = v
unfoldable pub put : Text → Value → Fields → Fields
put k v end = field k v end
put k v (field j w fs) = if text_eq j k then field k v fs else field j w (put k v fs)

pub get-put :
    (k j : Text) (v : Value) (fs : Fields)
    → get j (put k v fs) ≡ (if text_eq k j then some v else get j fs)
unfolding get put
get-put k j v end = refl
get-put k j v (field i w fs) =
    ground (arith, text_eq_iff k j, text_eq_iff i k, text_eq_iff i j, get-put k j v fs)

pub get-put_ne :
    (k j : Text) (v : Value) (fs : Fields) → text_eq k j ≡ false → get j (put k v fs) ≡ get j fs
get-put_ne k j v fs h = get-put k j v fs ∙ rw h refl

-- A map literal.
abbrev pub fields : List (Text × Value) → Fields
fields [] = end
fields ((k, v) ∷ fs) = field k v (fields fs)

abbrev pub strings : List Text → Values
strings [] = nil
strings (s ∷ ss) = cons (str s) (strings ss)

-- The copy of a map of strings, key by key.
abbrev pub copy_dict : Dict Text → Fields → Fields
copy_dict [] fs = fs
copy_dict ((k, v) ∷ m) fs = copy_dict m (put k (str v) fs)

-- The value at a path of field names.
unfoldable pub at : List Text → Value → Option Value
at [] v = some v
at (k ∷ ks) (obj fs) = elim (get k fs) [ none ↦ none | some v ↦ at ks v ]
at (k ∷ ks) _ = none

abbrev pub as_text : Option Value → Text
as_text (some (str s)) = s
as_text _ = []

abbrev pub as_int : Option Value → ℕ
as_int (some (int n)) = n
as_int _ = 0

abbrev pub as_values : Option Value → Values
as_values (some (arr vs)) = vs
as_values _ = nil

-- NestedString, NestedInt64 and NestedSlice without their flags, whether NestedMap finds a map that
-- is not nil, and SetNestedField for a path of one name.
pub record Accessors : Type 0 where
  pub nested_string : Value → List Text → Text
  pub nested_int64 : Value → List Text → ℕ
  pub nested_slice : Value → List Text → Values
  pub has_map : Value → Text → Bool
  pub set_field : Value → Value → Text → Result Value

-- Their documented behaviour: they read the value at the path, and the zero value where it is
-- missing or of another type; a field that is set in a map reads back.
pub record AccessorLaws (a : Accessors) : Type 0 where
  pub string : (v : Value) (path : List Text) → a.nested_string v path ≡ as_text (at path v)
  pub int64 : (v : Value) (path : List Text) → a.nested_int64 v path ≡ as_int (at path v)
  pub slice : (v : Value) (path : List Text) → a.nested_slice v path ≡ as_values (at path v)
  pub set : (fs : Fields) (v : Value) (k : Text) → a.set_field (obj fs) v k ≡ ok (obj (put k v fs))
