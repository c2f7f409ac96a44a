-- ===== src/Config/Built.antt =====
-- What the conversion of a value gives, by the type that is required.
use curveadm.Prelude.{
  ℕ, zero, suc, String, ◌≡◌, refl, ◌==◌, Bool, true, false, Option, none, some, List, ℤ, pos,
  negsuc, Bool-cases, ◌⊎◌, inl, inr, Ends, bind-Ends,
}
use curveadm.Errno.{Code, configure_value_requires_integer, configure_value_requires_bool}
use curveadm.Config.Value.{
  Value, Values, null, any, text, int, bool, dict, slice, texts, nil, cons, str_to_int, str_to_bool,
}
use curveadm.Topology.Item.{
  Require, require_any, require_int, require_string, require_bool, require_positive_integer,
  require_string_slice,
}
use curveadm.Config.ItemSet.{strings_of, convert_slice, required, positive_int, build_as}

abbrev pub IsBuilt : Require → Value → Type 0
IsBuilt require_string v = (s : String) × (v ≡ text s) × ((s == "") ≡ false)
IsBuilt require_int v = (n : ℤ) × (v ≡ int n)
IsBuilt require_positive_integer v = (n : ℕ) × (v ≡ int (pos (suc n)))
IsBuilt require_bool v = (b : Bool) × (v ≡ bool b)
IsBuilt require_string_slice v = (ss : List String) × (v ≡ texts ss)
IsBuilt require_any v = Unit

-- A list of which each member is a text
abbrev pub are_texts : Values → Bool
are_texts nil = true
are_texts (cons (text s) vs) = are_texts vs
are_texts (cons _ vs) = false

abbrev pub is_plain : Value → Bool
is_plain (slice vs) = are_texts vs
is_plain _ = true

-- Only the conversion of a list may panic, and not of a list of texts.
abbrev pub Admits : Type 0 → Require → Value → Type 0
Admits N require_string_slice v = (is_plain v ≡ true) ⊎ N
Admits N _ v = Unit

pub Admits-plain : (N : Type 0) (r : Require) (v : Value) → (is_plain v ≡ true) ⊎ N → Admits N r v
Admits-plain N require_string_slice v h = h
Admits-plain N require_any v h = tt
Admits-plain N require_string v h = tt
Admits-plain N require_int v h = tt
Admits-plain N require_bool v h = tt
Admits-plain N require_positive_integer v h = tt

module _ (N : Type 0) where
  required-Ends : {A : Type 0} (o : Option A) (e : Code) → Ends N (λ _. Unit) (required o e)
  required-Ends none e = tt
  required-Ends (some a) e = tt

  positive_int-Ends : (n : ℤ) → Ends N (IsBuilt require_positive_integer) (positive_int n)
  positive_int-Ends (pos zero) = tt
  positive_int-Ends (pos (suc n)) = (n, refl)
  positive_int-Ends (negsuc n) = tt

  strings_of-Ends : (vs : Values) → (are_texts vs ≡ true) ⊎ N → Ends N (λ _. Unit) (strings_of vs)
  unfolding strings_of
  strings_of-Ends nil h = tt
  strings_of-Ends (cons (text s) vs) h =
      bind-Ends N (λ _. Unit) (λ _. Unit) (strings_of vs) _ (strings_of-Ends vs h) (λ ss _. tt)
  strings_of-Ends (cons null vs) (inl e) = cc
  strings_of-Ends (cons null vs) (inr n) = n
  strings_of-Ends (cons any vs) (inl e) = cc
  strings_of-Ends (cons any vs) (inr n) = n
  strings_of-Ends (cons (int i) vs) (inl e) = cc
  strings_of-Ends (cons (int i) vs) (inr n) = n
  strings_of-Ends (cons (bool b) vs) (inl e) = cc
  strings_of-Ends (cons (bool b) vs) (inr n) = n
  strings_of-Ends (cons (dict fs) vs) (inl e) = cc
  strings_of-Ends (cons (dict fs) vs) (inr n) = n
  strings_of-Ends (cons (slice ws) vs) (inl e) = cc
  strings_of-Ends (cons (slice ws) vs) (inr n) = n
  strings_of-Ends (cons (texts ss) vs) (inl e) = cc
  strings_of-Ends (cons (texts ss) vs) (inr n) = n

  convert_slice-Ends :
      (value : Value)
      → (is_plain value ≡ true) ⊎ N
      → Ends N (IsBuilt require_string_slice) (convert_slice value)
  unfolding convert_slice
  convert_slice-Ends (slice (cons (text s) vs)) h =
      bind-Ends N (λ _. Unit) (IsBuilt require_string_slice) (strings_of (cons (text s) vs)) _
        (strings_of-Ends (cons (text s) vs) h) (λ ss _. (ss, refl))
  convert_slice-Ends (slice nil) h = tt
  convert_slice-Ends (slice (cons null vs)) h = tt
  convert_slice-Ends (slice (cons any vs)) h = tt
  convert_slice-Ends (slice (cons (int i) vs)) h = tt
  convert_slice-Ends (slice (cons (bool b) vs)) h = tt
  convert_slice-Ends (slice (cons (dict fs) vs)) h = tt
  convert_slice-Ends (slice (cons (slice ws) vs)) h = tt
  convert_slice-Ends (slice (cons (texts ss) vs)) h = tt
  convert_slice-Ends null h = tt
  convert_slice-Ends any h = tt
  convert_slice-Ends (text s) h = tt
  convert_slice-Ends (int i) h = tt
  convert_slice-Ends (bool b) h = tt
  convert_slice-Ends (dict fs) h = tt
  convert_slice-Ends (texts ss) h = tt

  pub build_as-Ends :
      (r : Require) (v : String) (value : Value)
      → Admits N r value
      → Ends N (IsBuilt r) (build_as r v value)
  unfolding build_as
  build_as-Ends require_any v value a = tt
  build_as-Ends require_string v value a = elim (Bool-cases (v == "")) [
    | inl e ↦ rw (e) tt
    | inr e ↦ rw (e) (v, refl, e)
  ]
  build_as-Ends require_int v value a =
      bind-Ends N (λ _. Unit) (IsBuilt require_int)
        (required (str_to_int v) configure_value_requires_integer) _
        (required-Ends (str_to_int v) configure_value_requires_integer) (λ n _. (n, refl))
  build_as-Ends require_positive_integer v value a =
      bind-Ends N (λ _. Unit) (IsBuilt require_positive_integer)
        (required (str_to_int v) configure_value_requires_integer) _
        (required-Ends (str_to_int v) configure_value_requires_integer) (λ n _. positive_int-Ends n)
  build_as-Ends require_bool v value a =
      bind-Ends N (λ _. Unit) (IsBuilt require_bool)
        (required (str_to_bool v) configure_value_requires_bool) _
        (required-Ends (str_to_bool v) configure_value_requires_bool) (λ b _. (b, refl))
  build_as-Ends require_string_slice v value a = convert_slice-Ends value a
