-- ===== src/Variables/Rendering.antt =====
-- `Rendering` of a template, whose references are all resolved.
use Prim.Native.String.{◌++◌}
use text.Mathlib.TextLemmas.{append_assoc, nil-append, cons-append, append-nil}
use curveadm.Prelude.{
  String, ◌≡◌, refl, sym, ◌∙◌, ap, true, List, [], ◌∷◌, arith, All, Result, ok, err, panic,
  exhausted, List-cases, inl, inr,
}
use curveadm.Variables.Scan.{Token, lit, ref, one, scan, refs}
use curveadm.Variables.Scan.Template.{Part, IsPart, literals, parts, write, is_plain, scan-write}
use curveadm.Variables.Scan.Source.{source, source-scan}
use curveadm.Variables.{Variables, Fault, get, render, rendering}

-- A template with `f n` in place of each reference `n`.
pub fill : (String → String) → List Part → String → String
fill f [] tail = tail
fill f ((t, n) ∷ ps) tail = t ++ (f n ++ fill f ps tail)

-- A text in front of a result.
abbrev before : String → Result Fault String → Result Fault String
before t (ok r) = ok (t ++ r)
before t (err e) = err e
before t panic = panic
before t exhausted = exhausted

before-append : (s t : String) (r : Result Fault String) → before s (before t r) ≡ before (s ++ t) r
before-append s t (ok r) = ap ok (sym (append_assoc s t r))
before-append s t _ = refl

before-nil : (r : Result Fault String) → before "" r ≡ r
before-nil (ok r) = ap ok (nil-append r)
before-nil _ = refl

module _ (vars : Variables) where
  render-lit : (t : String) (ts : List Token) → render vars (lit t ∷ ts) ≡ before t (render vars ts)
  unfolding render
  render-lit t ts = ground (arith)

  render-literals :
      (t : String) (ts : List Token) → render vars (literals t ts) ≡ before t (render vars ts)
  render-literals String.[] ts = sym (before-nil _)
  render-literals (String.◌∷◌ c s) ts =
      render-lit (one c) (literals s ts)
      ∙ ap (before (one c)) (render-literals s ts)
      ∙ before-append (one c) s _
      ∙ ap (λ t. before t (render vars ts)) (cons-append c "" s ∙ ap (String.◌∷◌ c) (nil-append s))

  render-ref :
      (n : String) (ts : List Token) {v r : String}
      → get n vars ≡ ok v
      → render vars ts ≡ ok r
      → render vars (ref n ∷ ts) ≡ ok (v ++ r)
  unfolding render
  render-ref n ts g h = rw (g, h)

  abbrev Gets : (String → String) → Part → Type 0
  Gets f (t, n) = get n vars ≡ ok (f n)

  render-parts :
      (f : String → String) (ps : List Part) (tail : String)
      → All (Gets f) ps
      → render vars (parts ps tail) ≡ ok (fill f ps tail)
  unfolding parts fill
  render-parts f [] tail g = render-literals tail [] ∙ unfold render in ap ok (append-nil tail)
  render-parts f ((t, n) ∷ ps) tail (g, gs) =
      render-literals t _ ∙ ap (before t) (render-ref n _ g (render-parts f ps tail gs))

  render_no_refs : (ts : List Token) → refs ts ≡ [] → render vars ts ≡ ok (source ts)
  unfolding render refs source
  render_no_refs [] h = refl
  render_no_refs (lit s ∷ ts) h = rw (render_no_refs ts h)
  render_no_refs (ref n ∷ ts) h = cc

  -- The early return for a text with no match agrees with the replacement.
  pub rendering-render :
      (s : String) → vars.compiled ≡ true → rendering vars s ≡ render vars (scan s)
  unfolding rendering
  rendering-render s c = rw c (elim (List-cases (refs (scan s))) [
    | inl e ↦ rw e (sym (render_no_refs (scan s) e ∙ ap ok (source-scan s)))
    | inr (n, ns, e) ↦ rw e
  ])

  -- After `Build` has compiled the pattern, rendering a template replaces exactly its references:
  -- where each part's text is free of `$`, each name is not empty and free of `$`, `{` and `}`,
  -- and each name is resolved to a value, the result is the template with the values in place of
  -- the references.
  pub rendering-write :
      (f : String → String) (ps : List Part) (tail : String)
      → vars.compiled ≡ true
      → All IsPart ps
      → is_plain tail ≡ true
      → All (Gets f) ps
      → rendering vars (write ps tail) ≡ ok (fill f ps tail)
  rendering-write f ps tail c p t g =
      rendering-render (write ps tail) c
      ∙ ap (render vars) (scan-write ps tail p t)
      ∙ render-parts f ps tail g
