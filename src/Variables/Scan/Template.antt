-- ===== src/Variables/Scan/Template.antt =====
-- Templates: texts without `$` and references in turn, `t1${n1}t2${n2}…tail`. A template scans to
-- its parts.
use Prim.Native.Char.{Char}
use Prim.Native.String.{◌++◌}
use text.Mathlib.TextLemmas.{cons-append, nil-append}
use curveadm.Prelude.{
  String, ◌≡◌, refl, sym, ◌∙◌, ap, Bool, true, false, not, ◌&&◌, ◌==◌, List, [], ◌∷◌, arith, All,
  text_laws,
}
use curveadm.Variables.Scan.{
  Token, lit, ref, plain, dollar, name, one, is, is_special, scan_step, scan_from, scan,
}

-- A text with no `$`.
abbrev pub is_plain : String → Bool
is_plain String.[] = true
is_plain (String.◌∷◌ c s) = not (is b'$' c) && is_plain s

-- A text with none of `$`, `{` and `}`.
unfoldable pub is_name : String → Bool
is_name String.[] = true
is_name (String.◌∷◌ c s) = not (is_special c) && is_name s

pub record IsName (n : String) : Type 0 where
  pub clean : is_name n ≡ true
  pub some_character : (n == "") ≡ false

abbrev pub Part : Type 0
Part = String × String

unfoldable pub IsPart : Part → Type 0
IsPart (t, n) = (is_plain t ≡ true) × IsName n

unfoldable pub write : List Part → String → String
write [] tail = tail
write ((t, n) ∷ ps) tail = t ++ ("${" ++ (n ++ ("}" ++ write ps tail)))

-- One token for each character.
abbrev pub literals : String → List Token → List Token
literals String.[] ts = ts
literals (String.◌∷◌ c s) ts = lit (one c) ∷ literals s ts

unfoldable pub parts : List Part → String → List Token
parts [] tail = literals tail []
parts ((t, n) ∷ ps) tail = literals t (ref n ∷ parts ps tail)

scan-plain :
    (t rest : String)
    → is_plain t ≡ true
    → scan_from plain (t ++ rest) ≡ literals t (scan_from plain rest)
unfolding scan_from scan_step
scan-plain String.[] rest h = simp text_laws
scan-plain (String.◌∷◌ c s) rest h = rw cons-append (ground (arith, scan-plain s rest))

scan_from-nil : (t : String) → is_plain t ≡ true → scan_from plain t ≡ literals t []
unfolding scan_from scan_step
scan_from-nil String.[] h = refl
scan_from-nil (String.◌∷◌ c s) h = ground (arith, scan_from-nil s)

scan_name-cons :
    (c : Char) (acc rest : String)
    → is_special c ≡ false
    → scan_from (name acc) (String.◌∷◌ c rest) ≡ scan_from (name (acc ++ one c)) rest
unfolding scan_from scan_step is_special
scan_name-cons c acc rest h = ground arith

is_name-cons :
    (c : Char) (s : String)
    → is_name (String.◌∷◌ c s) ≡ true
    → (is_special c ≡ false) × (is_name s ≡ true)
unfolding is_name
is_name-cons c s h = ground arith

scan_name-append :
    (n acc rest : String)
    → is_name n ≡ true
    → scan_from (name acc) (n ++ rest) ≡ scan_from (name (acc ++ n)) rest
scan_name-append String.[] acc rest h = simp text_laws
scan_name-append (String.◌∷◌ c s) acc rest h =
    let (plain_c, plain_s) = is_name-cons c s h in
    rw (cons-append c s rest) (
      scan_name-cons c acc (s ++ rest) plain_c
      ∙ scan_name-append s (acc ++ one c) rest plain_s
      ∙ ap (λ n. scan_from (name n) rest) (simp text_laws))

scan_close :
    (n rest : String)
    → (n == "") ≡ false
    → scan_from (name n) ("}" ++ rest) ≡ ref n ∷ scan_from plain rest
unfolding scan_from scan_step
scan_close n rest h = rw cons-append (rw h (rw nil-append))

scan_open : (rest : String) → scan_from plain ("${" ++ rest) ≡ scan_from (name "") rest
unfolding scan_from scan_step
scan_open rest = rw cons-append (rw cons-append (rw nil-append))

scan_opened : (rest : String) → scan_from plain ("${" ++ rest) ≡ scan_from dollar ("{" ++ rest)
unfolding scan_from scan_step
scan_opened rest = rw cons-append refl

-- A reference scans to its name.
pub scan_ref :
    (n rest : String)
    → IsName n
    → scan_from plain ("${" ++ (n ++ ("}" ++ rest))) ≡ ref n ∷ scan_from plain rest
scan_ref n rest h =
    scan_open _
    ∙ scan_name-append n "" _ h.clean
    ∙ rw nil-append (scan_close n rest h.some_character)

-- A `$` after the start of a match that is none starts a match anew.
pub scan_ref-dollar :
    (n rest : String)
    → IsName n
    → scan_from dollar ("${" ++ (n ++ ("}" ++ rest))) ≡ lit "$" ∷ ref n ∷ scan_from plain rest
unfolding scan_from scan_step
scan_ref-dollar n rest h =
    rw cons-append (ap (◌∷◌ (lit "$")) (sym (scan_opened (n ++ ("}" ++ rest))) ∙ scan_ref n rest h))

pub scan_ref-name :
    (s n rest : String)
    → IsName n
    → scan_from (name s) ("${" ++ (n ++ ("}" ++ rest)))
      ≡ lit ("${" ++ s) ∷ ref n ∷ scan_from plain rest
unfolding scan_from scan_step
scan_ref-name s n rest h =
    rw cons-append
      (ap (◌∷◌ (lit ("${" ++ s))) (sym (scan_opened (n ++ ("}" ++ rest))) ∙ scan_ref n rest h))

-- A text with a reference in it
abbrev pub with_reference : String → String → String → String
with_reference before n after = before ++ ("${" ++ (n ++ ("}" ++ after)))

scan_from-write :
    (ps : List Part) (tail : String)
    → All IsPart ps
    → is_plain tail ≡ true
    → scan_from plain (write ps tail) ≡ parts ps tail
unfolding write parts IsPart
scan_from-write [] tail h t = scan_from-nil tail t
scan_from-write ((s, n) ∷ ps) tail ((p, q), h) t =
    scan-plain s _ p
    ∙ ap (literals s) (scan_ref n _ q ∙ ap (◌∷◌ (ref n)) (scan_from-write ps tail h t))

-- A template scans to its parts.
pub scan-write :
    (ps : List Part) (tail : String)
    → All IsPart ps
    → is_plain tail ≡ true
    → scan (write ps tail) ≡ parts ps tail
unfolding scan
scan-write = scan_from-write
