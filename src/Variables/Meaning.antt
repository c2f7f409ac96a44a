-- ===== src/Variables/Meaning.antt =====
-- What a table of variables means, apart from the order in which `resolve` walks it: a resolved
-- variable means its value, an unresolved one its text with every reference replaced by what it means.
use Prim.Native.String.{◌++◌}
use curveadm.Prelude.{
  String, ◌≡◌, refl, sym, ◌∙◌, ap, true, false, List, [], ◌∷◌, Option, some, ◌⊎◌, inl, inr, Dict,
  lookup, insert, lookup-insert, eq_iff, text-cases, subst,
}
use curveadm.Variables.Scan.{Token, lit, ref, scan}
use curveadm.Variables.{Variable}

mutual
  pub data Means (m : Dict Variable) : String → String → Type 0 where
    settled :
        {n : String} {v : Variable} → lookup n m ≡ some v → v.resolved ≡ true → Means m n v.value
    expanded :
        {n t : String} {v : Variable}
        → lookup n m ≡ some v
        → v.resolved ≡ false
        → Expands m (scan v.value) t
        → Means m n t

  pub data Expands (m : Dict Variable) : List Token → String → Type 0 where
    done : Expands m [] ""
    text : {s t : String} {ts : List Token} → Expands m ts t → Expands m (lit s ∷ ts) (s ++ t)
    value :
        {n s t : String} {ts : List Token}
        → Means m n s
        → Expands m ts t
        → Expands m (ref n ∷ ts) (s ++ t)

-- What `resolve` may do to a name's entry: leave it, or settle it to what it means.
pub data Change (m : Dict Variable) (n : String) : Option Variable → Option Variable → Type 0 where
  same : {o : Option Variable} → Change m n o o
  settle : {v w : Variable} → w.resolved ≡ true → Means m n w.value → Change m n (some v) (some w)

pub record Evolves (m m' : Dict Variable) : Type 0 where
  pub at : (n : String) → Change m n (lookup n m) (lookup n m')

-- A name means one text at most.
mutual
  pub Means-det : {m : Dict Variable} {n s t : String} → Means m n s → Means m n t → s ≡ t
  Means-det (settled p q) (settled p' q') = cc
  Means-det (settled p q) (expanded p' q' e') = cc
  Means-det (expanded p q e) (settled p' q') = cc
  Means-det {m} (expanded {v} p q e) (expanded {t = t'} {v = w} p' q' e') =
      let same_entry : w ≡ v = cc in
      Expands-det e (subst (λ (u : Variable). Expands m (scan u.value) t') same_entry e')

  Expands-det :
      {m : Dict Variable} {ts : List Token} {s t : String} → Expands m ts s → Expands m ts t → s ≡ t
  Expands-det done done = refl
  Expands-det (text {s} e) (text e') = ap (λ r. s ++ r) (Expands-det e e')
  Expands-det (value h e) (value h' e') = cc (Means-det h h', Expands-det e e')

module _ {m : Dict Variable} {n : String} where
  -- Where an entry comes from.
  pub Change-from :
      {o o' : Option Variable} {w : Variable}
      → Change m n o o'
      → o' ≡ some w
      → (o ≡ some w) ⊎ (w.resolved ≡ true) × Means m n w.value
  Change-from same e = inl e
  Change-from {w} (settle {w = u} r h) e =
      let same_entry : u ≡ w = cc in
      inr (
        ap (λ (v : Variable). v.resolved) (sym same_entry) ∙ r,
        subst (λ (v : Variable). Means m n v.value) same_entry h,
      )

  pub Change-defined :
      {o o' : Option Variable} {w : Variable}
      → Change m n o o'
      → o' ≡ some w
      → (v : Variable) × (o ≡ some v)
  Change-defined {w} same e = (w, e)
  Change-defined (settle {v} r h) e = (v, refl)

  pub Change-to :
      {o o' : Option Variable} {v : Variable}
      → Change m n o o'
      → o ≡ some v
      → (w : Variable) × (o' ≡ some w) × (v.resolved ≡ true → w.resolved ≡ true)
  Change-to {v} same e = (v, e, λ h. h)
  Change-to (settle {w} r h) e = (w, refl, λ _. r)

-- Evolving adds no meaning.
mutual
  pub Means-back : {m m' : Dict Variable} {n t : String} → Evolves m m' → Means m' n t → Means m n t
  Means-back ev (settled {n} p q) = elim (Change-from (ev.at n) p) [
    | inl e ↦ settled e q
    | inr (r, h) ↦ h
  ]
  Means-back ev (expanded {n} p q e) =
      let e' = Expands-back ev e in
      elim (Change-from (ev.at n) p) [ inl k ↦ expanded k q e' | inr (r, h) ↦ cc ]

  Expands-back :
      {m m' : Dict Variable} {ts : List Token} {t : String}
      → Evolves m m'
      → Expands m' ts t
      → Expands m ts t
  Expands-back ev done = done
  Expands-back ev (text e) = text (Expands-back ev e)
  Expands-back ev (value h e) = value (Means-back ev h) (Expands-back ev e)

pub Evolves-refl : (m : Dict Variable) → Evolves m m
Evolves-refl m = record { at = λ n. same }

Change-trans :
    {m m' : Dict Variable} {n : String} {a b c : Option Variable}
    → Evolves m m'
    → Change m n a b
    → Change m' n b c
    → Change m n a c
Change-trans ev d same = d
Change-trans ev same (settle r h) = settle r (Means-back ev h)
Change-trans ev (settle _ _) (settle r h) = settle r (Means-back ev h)

pub Evolves-trans : {l m n : Dict Variable} → Evolves l m → Evolves m n → Evolves l n
Evolves-trans d e = record { at = λ k. Change-trans d (d.at k) (e.at k) }

-- Settling an entry to what it means is an evolution.
pub Evolves-insert :
    {l m : Dict Variable} {n : String} {v : Variable} (w : Variable)
    → Evolves l m
    → lookup n l ≡ some v
    → w.resolved ≡ true
    → Means l n w.value
    → Evolves l (insert n w m)
Evolves-insert {l} {m} {n} {v} w ev e r h = record { at = step }
  where
    step : (j : String) → Change l j (lookup j l) (lookup j (insert n w m))
    step j = rw lookup-insert (elim (text-cases n j) [
      | inl s ↦
          rw ((eq_iff n j).1 s)
            (subst (λ k. Change l k (lookup k l) (some w)) s (rw e (settle r h)))
      | inr s ↦ rw s (ev.at j)
    ])
