-- ===== src/Prelude/Texts.antt =====
-- The Go functions on texts that the program calls: joins, decimal print and parse, booleans.
use Prim.Native.Nat.{ℕ, zero, suc, ◌+◌, ◌-◌, ◌*◌, ◌/◌, ◌%◌, ◌<◌, ◌^◌}
use Prim.Native.Char.{code}
use Prim.Native.String.{String}
use Prim.Native.String
use mathlib.Core.Bool.{Bool, true, false, ◌&&◌, ◌||◌}
use mathlib.Core.Path.{◌≡◌}
use native.Mathlib.Omega.{arith}
use mathlib.Core.List.{List, [], ◌∷◌}
use mathlib.Core.Option.{Option, none, some}
use text.Mathlib.Text.{◌==◌}
use text.Mathlib.TextLemmas.{
  nil-append, cons-append, append-nil as text-append-nil, append_assoc as text-append_assoc,
}
use curveadm.Prelude.Tests.{ltb, leb, nat_eq, if◌then◌else◌}
use curveadm.Prelude.Lists.{get_or}

-- int; `negsuc n` is -(n + 1).
pub data ℤ : Type 0 where
  pos : ℕ → ℤ
  negsuc : ℕ → ℤ

-- fmt.Sprintf, as the pieces of its result
unfoldable pub concat : List String → String
concat [] = ""
concat (s ∷ ss) = String.◌++◌ s (concat ss)

-- strings.Join
unfoldable pub join : String → List String → String
join sep [] = ""
join sep (s ∷ []) = s
join sep (s ∷ t ∷ ss) = String.◌++◌ s (String.◌++◌ sep (join sep (t ∷ ss)))

abbrev digit : ℕ → String
digit d = get_or ("0" ∷ "1" ∷ "2" ∷ "3" ∷ "4" ∷ "5" ∷ "6" ∷ "7" ∷ "8" ∷ []) d "9"

-- The decimal digits of a number in front of a text, on fuel.
digits : ℕ → ℕ → String → String
digits zero n out = out
digits (suc f) n out =
    let out' = String.◌++◌ (digit (n % 10)) out in
    let rest = digits f (n / 10) out' in if ltb n 10 then out' else rest

-- strconv.Itoa: a number below n + 1 divided by ten is 0 after at most n + 1 rounds.
unfoldable pub itoa_ℕ : ℕ → String
unfolding digits
itoa_ℕ n = digits (suc n) n ""

unfoldable pub itoa : ℤ → String
unfolding itoa_ℕ
itoa (pos n) = itoa_ℕ n
itoa (negsuc n) = String.◌++◌ "-" (itoa_ℕ (suc n))

-- The value of a run of digits behind `n`; `none` at another character.
scan_digits : String → ℕ → Option ℕ
scan_digits String.[] n = some n
scan_digits (String.◌∷◌ c s) n =
    if leb b'0' (code c) && leb (code c) b'9'
    then scan_digits s (n * 10 + (code c - b'0'))
    else none

-- One digit at least.
unsigned : String → Option ℕ
unfolding scan_digits
unsigned String.[] = none
unsigned (String.◌∷◌ c s) = scan_digits (String.◌∷◌ c s) 0

abbrev positive : Option ℕ → Option ℤ
positive none = none
positive (some n) = if ltb n (2 ^ 63) then some (pos n) else none

abbrev negative : Option ℕ → Option ℤ
negative none = none
negative (some zero) = some (pos 0)
negative (some (suc n)) = if ltb n (2 ^ 63) then some (negsuc n) else none

-- strconv.Atoi on a 64-bit int
unfoldable pub atoi : String → Option ℤ
unfolding unsigned
atoi String.[] = none
atoi (String.◌∷◌ c s) =
    if nat_eq (code c) b'-'
    then negative (unsigned s)
    else if nat_eq (code c) b'+'
    then positive (unsigned s)
    else positive (unsigned (String.◌∷◌ c s))

-- strconv.FormatBool
unfoldable pub format_bool : Bool → String
format_bool true = "true"
format_bool false = "false"

-- strconv.ParseBool
unfoldable pub parse_bool : String → Option Bool
parse_bool s =
    if s == "1" || s == "t" || s == "T" || s == "TRUE" || s == "true" || s == "True"
    then some true
    else if s == "0" || s == "f" || s == "F" || s == "FALSE" || s == "false" || s == "False"
    then some false
    else none

-- fmt.Sprintf("%02d", n)
unfoldable pub pad2 : ℕ → String
unfolding itoa_ℕ
pad2 n = if ltb n 10 then String.◌++◌ "0" (itoa_ℕ n) else itoa_ℕ n

-- The laws of appending texts, and the text of one character.
pub ruleset text_laws = (nil-append, cons-append, text-append-nil, text-append_assoc)

-- The order of Go on texts: by bytes in UTF-8, which is the order by code points.
unfoldable pub text_lt : String → String → Bool
text_lt String.[] String.[] = false
text_lt String.[] (String.◌∷◌ d t) = true
text_lt (String.◌∷◌ c s) String.[] = false
text_lt (String.◌∷◌ c s) (String.◌∷◌ d t) =
    if nat_eq (code c) (code d) then text_lt s t else ltb (code c) (code d)

infixl 65 ◌+ℤ◌
unfoldable pub ◌+ℤ◌ : ℤ → ℤ → ℤ
◌+ℤ◌ (pos a) (pos b) = pos (a + b)
◌+ℤ◌ (pos a) (negsuc b) = if ltb b a then pos (a - b - 1) else negsuc (b - a)
◌+ℤ◌ (negsuc a) (pos b) = if ltb a b then pos (b - a - 1) else negsuc (a - b)
◌+ℤ◌ (negsuc a) (negsuc b) = negsuc (a + b + 1)

-- The bits of an int read with their sign
abbrev signed64 : ℕ → ℤ
signed64 w = if ltb w (2 ^ 63) then pos w else negsuc (2 ^ 64 - w - 1)

-- What an int of 64 bits keeps of a number
unfoldable pub int64 : ℤ → ℤ
int64 (pos a) = signed64 (a % 2 ^ 64)
int64 (negsuc a) = signed64 (2 ^ 64 - 1 - a % 2 ^ 64)

pub int64-small : (n : ℕ) → n < 2 ^ 63 → int64 (pos n) ≡ pos n
unfolding int64
int64-small n h = ground arith

abbrev negated : ℕ → ℤ
negated zero = pos 0
negated (suc n) = negsuc n

-- a / n for a divisor that is not 0: Go cuts towards 0.
unfoldable pub div_ℤ : ℤ → ℕ → ℤ
div_ℤ (pos a) n = pos (a / n)
div_ℤ (negsuc a) n = negated (suc a / n)

unfoldable pub is_zero : ℤ → Bool
is_zero (pos zero) = true
is_zero _ = false
