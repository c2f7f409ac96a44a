-- ===== src/Variables/Soundness.antt =====
-- `resolve` and `Build` against the meaning of the table that they start from, for tables whose
-- references are defined and do not run in circles.
use Prim.Native.String.{◌++◌}
use curveadm.Prelude.{
  ℕ, zero, suc, ◌≤◌, ◌<◌, String, ◌≡◌, refl, sym, ◌∙◌, ap, subst, true, false, List, [], ◌∷◌, some,
  inl, inr, arith, All, Dict, lookup, insert, lookup-insert, eq_refl, ok, Bool-cases, text-cases,
}
use curveadm.Variables.Scan.{Token, lit, ref, scan, refs}
use curveadm.Variables.Scan.Source.{source, source-scan}
use curveadm.Variables.Meaning.{
  Means, settled, expanded, Expands, done, text, value, Change-to, Change-from, Evolves, Means-back,
  Evolves-refl, Evolves-trans, Evolves-insert,
}
use curveadm.Variables.{Variable, Resolved, resolve_refs, expand, replace, resolve_value, resolve}

-- The entry of `n` is resolved.
pub record IsSettled (m : Dict Variable) (n : String) : Type 0 where
  pub entry : Variable
  pub found : lookup n m ≡ some entry
  pub is_resolved : entry.resolved ≡ true

pub IsSettled-Evolves :
    {m m' : Dict Variable} {n : String} → Evolves m m' → IsSettled m n → IsSettled m' n
IsSettled-Evolves {n} ev s =
    let (w, e, h) = Change-to (ev.at n) s.found in
    record { entry = w; found = e; is_resolved = h s.is_resolved }

abbrev pub Defined : Dict Variable → String → Type 0
Defined m n = (v : Variable) × (lookup n m ≡ some v)

pub Defined-Evolves :
    {m m' : Dict Variable} (n : String) → Evolves m m' → Defined m n → Defined m' n
Defined-Evolves n ev (v, e) = let (w, e', h) = Change-to (ev.at n) e in (w, e')

-- The replacement in a later table, where every reference is settled, succeeds with the expansion.
expand_sound :
    {m m' : Dict Variable} (ts : List Token)
    → Evolves m m'
    → All (IsSettled m') (refs ts)
    → (t : String) × (expand m' ts ≡ ok t) × Expands m ts t
unfolding expand refs
expand_sound [] ev s = ("", refl, done)
expand_sound (lit p ∷ ts) ev s = let (t, e, x) = expand_sound ts ev s in (p ++ t, rw e, text x)
expand_sound (ref n ∷ ts) ev (s, ss) =
    let (t, e, x) = expand_sound ts ev ss in
    (
      s.entry.value ++ t,
      rw (s.found, expand) (rw e),
      value (Means-back ev (settled s.found s.is_resolved)) x,
    )

-- A text with no reference means itself.
Expands-source : {m : Dict Variable} (ts : List Token) → [] ≡ refs ts → Expands m ts (source ts)
unfolding refs source
Expands-source [] h = done
Expands-source (lit p ∷ ts) h = text (Expands-source ts h)
Expands-source (ref n ∷ ts) h = cc

module _ (rank : String → ℕ) where
  -- Every reference of an unresolved variable is defined and of a lower rank.
  abbrev pub IsRanked : Dict Variable → Type 0
  IsRanked m =
      (n : String) (v : Variable)
      → lookup n m ≡ some v
      → v.resolved ≡ false
      → All (λ k. (rank k < rank n) × Defined m k) (refs (scan v.value))

  -- Names of rank `b` and above keep their entries.
  abbrev pub Frame : ℕ → Dict Variable → Dict Variable → Type 0
  Frame b m m' = (j : String) → b ≤ rank j → lookup j m' ≡ lookup j m

  lower :
      {m m' : Dict Variable} (b : ℕ) (ks : List String)
      → Evolves m m'
      → All (λ k. (rank k < b) × Defined m k) ks
      → All (λ k. (rank k < b) × Defined m' k) ks
  lower b [] ev h = h
  lower b (k ∷ ks) ev ((p, d), h) = ((p, Defined-Evolves k ev d), lower b ks ev h)

  pub IsRanked-Evolves : {m m' : Dict Variable} → Evolves m m' → IsRanked m → IsRanked m'
  IsRanked-Evolves ev h n v e u = elim (Change-from (ev.at n) e) [
    | inl k ↦ lower (rank n) (refs (scan v.value)) ev (h n v k u)
    | inr (r, _) ↦ cc
  ]

  pub record IsSound (m : Dict Variable) (n : String) (r : String × Dict Variable) : Type 0 where
    pub means : Means m n r.0
    pub evolves : Evolves m r.1
    pub settles : IsSettled r.1 n
    pub frame : Frame (suc (rank n)) m r.1

  abbrev pub Returns : Dict Variable → String → Resolved → Type 0
  Returns m n o = (r : String × Dict Variable) × (o ≡ ok r) × IsSound m n r

  abbrev pub Total : ℕ → (String → Dict Variable → Resolved) → Type 0
  Total b call =
      (n : String) (m : Dict Variable)
      → rank n < b
      → IsRanked m
      → Defined m n
      → Returns m n (call n m)

  pub record AllSound (b : ℕ) (m : Dict Variable) (ks : List String) (m' : Dict Variable)
      : Type 0 where
    pub evolves : Evolves m m'
    pub settles : All (IsSettled m') ks
    pub frame : Frame b m m'

  pub resolve_refs-Total :
      (b : ℕ) (call : String → Dict Variable → Resolved)
      → Total b call
      → (ks : List String) (m : Dict Variable) → IsRanked m
      → All (λ k. (rank k < b) × Defined m k) ks
      → (m' : Dict Variable) × (resolve_refs call ks m ≡ ok m') × AllSound b m ks m'
  unfolding resolve_refs
  resolve_refs-Total b call total [] m h d =
      (m, refl, record { evolves = Evolves-refl m; settles = tt; frame = λ j p. refl })
  resolve_refs-Total b call total (k ∷ ks) m h ((p, d), ds) =
      let (r, e, s) = total k m p h d in
      let ranked : IsRanked r.1 = IsRanked-Evolves s.evolves h in
      let (m', e', s') = resolve_refs-Total b call total ks r.1 ranked (lower b ks s.evolves ds) in
      (
        m',
        rw e e',
        record {
          evolves = Evolves-trans s.evolves s'.evolves;
          settles = (IsSettled-Evolves s'.evolves s.settles, s'.settles);
          frame = λ j q. s'.frame j q ∙ s.frame j (omega arith);
        },
      )

  -- Settling the entry of `n` at a text that it means.
  mark-IsSound :
      {m m' : Dict Variable} (n : String) {v : Variable} (t : String)
      → Evolves m m'
      → Frame (rank n) m m'
      → lookup n m ≡ some v
      → Means m n t
      → IsSound m n (t, insert n (record v { value = t; resolved = true }) m')
  mark-IsSound {m} {m'} n {v} t ev fr e h = record {
    means = h;
    evolves = Evolves-insert (record v { value = t; resolved = true }) ev e refl h;
    settles = record {
      entry = record v { value = t; resolved = true };
      found = rw lookup-insert (rw eq_refl);
      is_resolved = refl;
    };
    frame = λ j p. rw lookup-insert (elim (text-cases n j) [
      | inl s ↦ absurd (omega (arith, ap rank s))
      | inr s ↦ rw s (fr j (omega arith))
    ]);
  }

  replace-total :
      (m m' : Dict Variable) (n : String) (v : Variable)
      → lookup n m ≡ some v
      → v.resolved ≡ false
      → AllSound (rank n) m (refs (scan v.value)) m'
      → Returns m n (replace n (lookup n m') m')
  unfolding replace
  replace-total m m' n v e u s =
      let (t, x, h) = expand_sound (scan v.value) s.evolves s.settles in
      (
        (t, insert n (record v { value = t; resolved = true }) m'),
        rw (s.frame n (omega arith)) (rw e (rw x)),
        mark-IsSound n t s.evolves s.frame e (expanded e u h),
      )

  resolve_value-Total :
      (call : String → Dict Variable → Resolved) (m : Dict Variable) (n : String) (v : Variable)
      → Total (rank n) call
      → IsRanked m
      → lookup n m ≡ some v
      → v.resolved ≡ false
      → (ks : List String) → ks ≡ refs (scan v.value)
      → Returns m n (resolve_value call n v ks m)
  unfolding resolve_value
  resolve_value-Total call m n v total h e u [] k =
      let x =
        subst (Expands m (scan v.value)) (source-scan v.value) (Expands-source (scan v.value) k) in
      (
        (v.value, insert n (record v { resolved = true }) m),
        refl,
        mark-IsSound n v.value (Evolves-refl m) (λ j p. refl) e (expanded e u x),
      )
  resolve_value-Total call m n v total h e u (k ∷ ks) q =
      let (m', x, s) =
        resolve_refs-Total (rank n) call total (k ∷ ks) m h
          (subst (All (λ k. (rank k < rank n) × Defined m k)) (sym q) (h n v e u)) in
      rw x (replace-total m m' n v e u (subst (λ ks. AllSound (rank n) m ks m') q s))

  -- A variable resolves on any stack that is deeper than its rank: to what it means in the table,
  -- leaving a table that agrees with the old one up to settled entries of no higher rank.
  pub resolve-total :
      (f : ℕ) (n : String) (m : Dict Variable)
      → rank n < f
      → IsRanked m
      → Defined m n
      → Returns m n (resolve f n m)
  unfolding resolve
  resolve-total zero n m p h d = elim p [ ]
  resolve-total (suc f) n m p h (v, e) = rw e (elim (Bool-cases v.resolved) [
    | inl r ↦ rw r (
      (v.value, m),
      refl,
      record {
        means = settled e r;
        evolves = Evolves-refl m;
        settles = record { entry = v; found = e; is_resolved = r };
        frame = λ j q. refl;
      },
    )
    | inr u ↦ rw u (
        resolve_value-Total (resolve f) m n v (λ k m' q. resolve-total f k m' (omega arith)) h e u
          (refs (scan v.value)) refl)
  ])
