-- ===== src/Config/ItemSet.antt =====
-- internal/configure/common/item_set.go: the items of a configuration file, and the conversion of
-- what is configured to the types that they require; with the getters that the configurations of
-- hosts and of disks share (hc_get.go, dc_get.go).
use curveadm.Prelude.{
  suc, String, ◌==◌, Bool, true, false, ◌||◌, Option, none, some, List, [], ◌∷◌, Dict, lookup, ℤ,
  pos, ok, err, panic, ◌>>=◌, ◌>>◌, guard, if◌then◌else◌,
}
use curveadm.Errno.{
  Code, Fallible, configure_value_requires_nonempty_slice, unsupport_configure_value_type,
  configure_value_requires_non_empty_string, configure_value_requires_integer,
  configure_value_requires_positive_integer, configure_value_requires_bool,
}
use curveadm.Config.Value.{
  Value, Values, null, text, int, bool, slice, texts, nil, cons, all_to_str, atoa, str_to_int,
  str_to_bool,
}
use curveadm.Topology.Item.{
  Require, require_any, require_int, require_string, require_bool, require_positive_integer,
  require_string_slice, as_string, as_int, as_bool,
}

-- A default that is a function of the configuration is given as its value; `null` is none.
pub record CommItem : Type 0 where
  pub key : String
  pub require : Require
  pub default : Value

-- itemset.Get(key)
unfoldable pub find_comm_item : String → List CommItem → Option CommItem
find_comm_item k [] = none
find_comm_item k (i ∷ is) = if i.key == k then some i else find_comm_item k is

-- The values behind the first must have its type, which is string where it is called.
unfoldable pub strings_of : Values → Fallible (List String)
strings_of nil = ok []
strings_of (cons (text s) vs) = do ss ← strings_of vs; ok (s ∷ ss)
strings_of (cons _ vs) = panic

unfoldable pub convert_slice : Value → Fallible Value
unfolding strings_of
convert_slice (slice (cons (text s) vs)) = do ss ← strings_of (cons (text s) vs); ok (texts ss)
convert_slice (slice (cons _ vs)) = err unsupport_configure_value_type
convert_slice _ = err configure_value_requires_nonempty_slice

abbrev pub is_any_slice : Value → Bool
is_any_slice (slice vs) = true
is_any_slice _ = false

abbrev pub has_text : Option String → Bool
has_text none = false
has_text (some s) = true

abbrev pub required : {A : Type 0} → Option A → Code → Fallible A
required none e = err e
required (some a) e = ok a

abbrev pub positive_int : ℤ → Fallible Value
positive_int (pos (suc n)) = ok (int (pos (suc n)))
positive_int _ = err configure_value_requires_positive_integer

-- `v` is the text of the value, "" for a slice.
unfoldable pub build_as : Require → String → Value → Fallible Value
unfolding str_to_int str_to_bool convert_slice
build_as require_any v value = ok value
build_as require_string v value =
    if v == "" then err configure_value_requires_non_empty_string else ok (text v)
build_as require_int v value = do
  n ← required (str_to_int v) configure_value_requires_integer
  ok (int n)
build_as require_positive_integer v value = do
  n ← required (str_to_int v) configure_value_requires_integer
  positive_int n
build_as require_bool v value = do
  b ← required (str_to_bool v) configure_value_requires_bool
  ok (bool b)
build_as require_string_slice v value = convert_slice value

abbrev pub build_found : Option CommItem → Value → Fallible Value
build_found none value = ok value
build_found (some i) value = do
  guard (has_text (all_to_str value) || is_any_slice value) unsupport_configure_value_type
  build_as i.require (atoa value) value

unfoldable pub item_build : List CommItem → String → Value → Fallible Value
unfolding find_comm_item build_as all_to_str atoa
item_build items key value = build_found (find_comm_item key items) value

abbrev pub or_default : Option Value → Value → Value
or_default none d = d
or_default (some v) d = v

-- The getters of a configuration
unfoldable pub get_item : Dict Value → CommItem → Value
get_item config i = or_default (lookup i.key config) i.default

unfoldable pub item_string : Dict Value → CommItem → Fallible String
unfolding as_string
item_string config i = as_string (get_item config i)

unfoldable pub item_int : Dict Value → CommItem → Fallible ℤ
unfolding as_int
item_int config i = as_int (get_item config i)

unfoldable pub item_bool : Dict Value → CommItem → Fallible Bool
unfolding as_bool
item_bool config i = as_bool (get_item config i)

abbrev pub as_texts : Value → Fallible (List String)
as_texts null = ok []
as_texts (texts ss) = ok ss
as_texts _ = panic

unfoldable pub item_texts : Dict Value → CommItem → Fallible (List String)
item_texts config i = as_texts (get_item config i)
