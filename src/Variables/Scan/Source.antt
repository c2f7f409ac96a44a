-- ===== src/Variables/Scan/Source.antt =====
-- The texts that the tokens of the scanner of `${name}` were read from.
use Prim.Native.Char.{Char, code}
use Prim.Native.String.{◌++◌}
use text.Mathlib.TextEquality.{Char-path}
use text.Mathlib.TextLemmas.{append_assoc, nil-append}
use curveadm.Prelude.{
  String, ◌≡◌, refl, sym, ◌∙◌, true, List, [], ◌∷◌, Option, none, some, arith, Bool-cases,
  text-cases, inl, inr, text_laws,
}
use curveadm.Variables.Scan.{
  Token, lit, ref, Mode, plain, dollar, name, one, is, emit, scan_step, scan_from, scan,
}

-- The text that a token was read from.
pub piece : Token → String
piece (lit s) = s
piece (ref n) = "${" ++ (n ++ "}")

unfoldable pub source : List Token → String
unfolding piece
source [] = ""
source (t ∷ ts) = piece t ++ source ts

abbrev pending : Mode → String
pending plain = ""
pending dollar = "$"
pending (name s) = "${" ++ s

abbrev piece? : Option Token → String
piece? none = ""
piece? (some t) = piece t

abbrev dollar_sign : Char
dollar_sign = "$"

abbrev open_brace : Char
open_brace = "{"

abbrev close_brace : Char
close_brace = "}"

is-eq : (d c : Char) → is (code d) c ≡ true → c ≡ d
is-eq d c h = Char-path c d (ground arith)

scan_step-source :
    (m : Mode) (c : Char)
    → piece? (scan_step m c).0 ++ pending (scan_step m c).1 ≡ pending m ++ one c
unfolding scan_step piece
scan_step-source plain c = elim (Bool-cases (is b'$' c)) [
  | inl e ↦ rw (e, is-eq dollar_sign c e)
  | inr e ↦ rw e (simp text_laws)
]
scan_step-source dollar c = elim (Bool-cases (is b'{' c)) [
  | inl e ↦ rw (e, is-eq open_brace c e)
  | inr e ↦ rw e (elim (Bool-cases (is b'$' c)) [
    | inl e' ↦ rw (e', is-eq dollar_sign c e')
    | inr e' ↦ rw e' (simp text_laws)
  ])
]
scan_step-source (name s) c = elim (Bool-cases (is b'}' c)) [
  | inl e ↦
      rw (e, is-eq close_brace c e)
        (elim (text-cases s "") [ inl n ↦ rw n | inr n ↦ rw n (simp text_laws) ])
  | inr e ↦ rw e (elim (Bool-cases (is b'$' c)) [
    | inl e' ↦ rw (e', is-eq dollar_sign c e')
    | inr e' ↦ rw e' (elim (Bool-cases (is b'{' c)) [
      | inl o ↦ rw (o, is-eq open_brace c o) (simp text_laws)
      | inr o ↦ rw o (simp text_laws)
    ])
  ])
]

source-emit : (t : Option Token) (ts : List Token) → source (emit t ts) ≡ piece? t ++ source ts
unfolding source
source-emit none ts = sym (nil-append _)
source-emit (some t) ts = refl

scan_from-source : (m : Mode) (s : String) → source (scan_from m s) ≡ pending m ++ s
unfolding scan_from source
scan_from-source plain String.[] = refl
scan_from-source dollar String.[] = refl
scan_from-source (name n) String.[] = refl
scan_from-source m (String.◌∷◌ c s) =
    source-emit (scan_step m c).0 _
    ∙ rw (scan_from-source (scan_step m c).1 s) (
        sym (append_assoc (piece? (scan_step m c).0) _ s)
        ∙ rw (scan_step-source m c) (simp text_laws))

-- The tokens that a text is scanned to, its references and the characters between them, spell the
-- text again.
pub source-scan : (s : String) → source (scan s) ≡ s
unfolding scan
source-scan s = scan_from-source plain s ∙ nil-append s
