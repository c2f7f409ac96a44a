-- ===== src/Config/Value.antt =====
-- internal/utils/common.go: `interface{}` values as a YAML document holds them, the tests of their
-- types, and their conversions.
use curveadm.Prelude.{
  String, ◌≡◌, refl, ap, ◌∙◌, Bool, true, false, List, [], ◌∷◌, Option, none, some, Dict, ℤ, itoa,
  atoi, format_bool, parse_bool,
}

-- `any` stands for the types that the program does not tell apart: floats, 64-bit integers, times.
-- `texts` is a []string, which the program makes and no document holds.
mutual
  pub data Value : Type 0 where
    null any : Value
    text : String → Value
    int : ℤ → Value
    bool : Bool → Value
    dict : Fields → Value
    slice : Values → Value
    texts : List String → Value

  pub data Fields : Type 0 where
    end : Fields
    field : String → Value → Fields → Fields

  pub data Values : Type 0 where
    nil : Values
    cons : Value → Values → Values

-- v.(map[string]interface{})
abbrev pub to_dict : Fields → Dict Value
to_dict end = []
to_dict (field k v fs) = (k, v) ∷ to_dict fs

abbrev pub of_dict : Dict Value → Fields
of_dict [] = end
of_dict ((k, v) ∷ m) = field k v (of_dict m)

pub to_dict-of_dict : (m : Dict Value) → to_dict (of_dict m) ≡ m
to_dict-of_dict [] = refl
to_dict-of_dict ((k, v) ∷ m) = ap (λ t. (k, v) ∷ t) (to_dict-of_dict m)

-- v == nil, also of a key that is missing
abbrev pub is_nil : Option Value → Bool
is_nil none = true
is_nil (some null) = true
is_nil (some _) = false

unfoldable pub is_string : Value → Bool
is_string (text s) = true
is_string _ = false

unfoldable pub is_int : Value → Bool
is_int (int n) = true
is_int _ = false

unfoldable pub all_to_str : Value → Option String
all_to_str (text s) = some s
all_to_str (int n) = some (itoa n)
all_to_str (bool b) = some (format_bool b)
all_to_str _ = none

abbrev or_empty : Option String → String
or_empty none = ""
or_empty (some s) = s

-- The text of a value, "" for one that has none.
unfoldable pub atoa : Value → String
unfolding all_to_str
atoa v = or_empty (all_to_str v)

unfoldable pub str_to_int : String → Option ℤ
str_to_int s = atoi s

unfoldable pub str_to_bool : String → Option Bool
str_to_bool s = parse_bool s

-- `copy` and `DeepCopy`: a map is copied by its fields, any other value is shared.
mutual
  copy_value : Value → Value
  copy_value (dict fs) = dict (copy fs)
  copy_value v = v

  pub copy : Fields → Fields
  copy end = end
  copy (field k v fs) = field k (copy_value v) (copy fs)

unfoldable pub deep_copy : Dict Value → Dict Value
unfolding copy copy_value
deep_copy m = to_dict (copy (of_dict m))

-- A copy holds what was copied: as values the two cannot be told apart.
mutual
  unfolding copy copy_value

  copy_value-eq : (v : Value) → copy_value v ≡ v
  copy_value-eq (dict fs) = ap dict (copy-eq fs)
  copy_value-eq null = refl
  copy_value-eq any = refl
  copy_value-eq (text s) = refl
  copy_value-eq (int n) = refl
  copy_value-eq (bool b) = refl
  copy_value-eq (slice s) = refl
  copy_value-eq (texts s) = refl

  copy-eq : (fs : Fields) → copy fs ≡ fs
  copy-eq end = refl
  copy-eq (field k v fs) = λ i. field k (copy_value-eq v i) (copy-eq fs i)

-- The deep copy of a map of configured values, nested maps included, is equal to the map.
pub deep_copy-eq : (m : Dict Value) → deep_copy m ≡ m
unfolding deep_copy
deep_copy-eq m = ap to_dict (copy-eq (of_dict m)) ∙ to_dict-of_dict m
