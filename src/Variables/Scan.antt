-- ===== src/Variables/Scan.antt =====
-- pkg/variable/variables.go, the pattern `\${([^${}]+)}` that `FindAllStringSubmatch` and
-- `ReplaceAllStringFunc` match: a text is cut into literal pieces and references, from the left.
pub mod Source
pub mod Template
pub mod Found
use Prim.Native.Char.{Char, code}
use Prim.Native.String.{◌++◌}
use curveadm.Prelude.{
  ℕ, String, Bool, true, false, not, ◌||◌, List, [], ◌∷◌, Option, none, some, ◌==◌, nat_eq,
  if◌then◌else◌,
}

pub data Token : Type 0 where
  lit : String → Token
  ref : String → Token

-- What of a match has been read: nothing, `$`, or `${` and a piece of a name.
pub data Mode : Type 0 where
  plain dollar : Mode
  name : String → Mode

abbrev pub one : Char → String
one c = String.◌∷◌ c ""

abbrev pub is : ℕ → Char → Bool
is b c = nat_eq (code c) b

-- [${}], the characters that end a name
unfoldable pub is_special : Char → Bool
is_special c = is b'$' c || is b'{' c || is b'}' c

abbrev pub emit : Option Token → List Token → List Token
emit none ts = ts
emit (some t) ts = t ∷ ts

-- One character: the token that it completes, and what has been read then.
unfoldable pub scan_step : Mode → Char → Option Token × Mode
scan_step plain c = if is b'$' c then (none, dollar) else (some (lit (one c)), plain)
scan_step dollar c =
    if is b'{' c
    then (none, name "")
    else if is b'$' c
    then (some (lit "$"), dollar)
    else (some (lit ("$" ++ one c)), plain)
scan_step (name s) c =
    if is b'}' c
    then (some (if s == "" then lit "${}" else ref s), plain)
    else if is b'$' c
    then (some (lit ("${" ++ s)), dollar)
    else if is b'{' c
    then (some (lit ("${" ++ (s ++ "{"))), plain)
    else (none, name (s ++ one c))

-- What is left at the end of the text is literal.
unfoldable pub flush : Mode → List Token
flush plain = []
flush dollar = lit "$" ∷ []
flush (name s) = lit ("${" ++ s) ∷ []

unfoldable pub scan_from : Mode → String → List Token
unfolding flush
scan_from m String.[] = flush m
scan_from m (String.◌∷◌ c s) = let (t, m') = scan_step m c in emit t (scan_from m' s)

unfoldable pub scan : String → List Token
unfolding scan_from scan_step flush
scan = scan_from plain

-- The names of the matches, in order.
unfoldable pub refs : List Token → List String
refs [] = []
refs (lit s ∷ ts) = refs ts
refs (ref n ∷ ts) = n ∷ refs ts
