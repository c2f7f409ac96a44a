-- ===== src/Hosts/Address.antt =====
-- `IsValidAddress` of internal/utils/common.go: the regular expression
-- `^(((25[0-5]|2[0-4][0-9]|[01]?[0-9][0-9]?)(\.|$)){4})` as a scanner. No digit follows an octet, so it
-- is a whole run of digits.
use Prim.Native.Char.{code}
use Prim.Native.String.{String}
use curveadm.Prelude.{
  ℕ, zero, suc, ◌+◌, ◌-◌, ◌*◌, Bool, true, false, ◌&&◌, leb, nat_eq, if◌then◌else◌,
}

-- The number and the value of the digits in front of a text, and what follows them
unfoldable pub digit_run : ℕ → ℕ → String → ℕ × ℕ × String
digit_run n value String.[] = (n, value, String.[])
digit_run n value (String.◌∷◌ c s) =
    let rest = digit_run (suc n) (value * 10 + (code c - b'0')) s in
    if leb b'0' (code c) && leb (code c) b'9' then rest else (n, value, String.◌∷◌ c s)

-- One digit or two, or three up to 255
abbrev is_octet : ℕ → ℕ → Bool
is_octet n value = leb 1 n && leb n 3 && leb value 255

-- What follows an octet: a dot, or behind the last one the end
abbrev is_dotted : String → Bool
is_dotted String.[] = false
is_dotted (String.◌∷◌ c s) = nat_eq (code c) b'.'

abbrev is_ended : String → Bool
is_ended String.[] = true
is_ended (String.◌∷◌ c s) = nat_eq (code c) b'.'

abbrev behind_dot : String → String
behind_dot String.[] = String.[]
behind_dot (String.◌∷◌ c s) = s

-- An octet, and `n` more
unfoldable pub octets : ℕ → String → Bool
unfolding digit_run
octets zero s = let (d, v, rest) = digit_run 0 0 s in is_octet d v && is_ended rest
octets (suc n) s =
    let (d, v, rest) = digit_run 0 0 s in
    is_octet d v && is_dotted rest && octets n (behind_dot rest)

unfoldable pub is_valid_address : String → Bool
unfolding octets
is_valid_address s = octets 3 s
