-- ===== src/Display/Summary.antt =====
-- The status of the replicas of an entry together.
use curveadm.Prelude.{
  ℕ, suc, ◌+◌, ◌≤◌, ◌≡◌, ◌↔◌, refl, sym, ap, ◌∙◌, arith, String, ◌==◌, eq_iff, eq_refl, nat_eq,
  true, false, Bool-cases, none, some, List, [], ◌∷◌, length, All, Dict, lookup, insert,
  lookup-insert, IsMap, insert-IsMap, inl, inr, if◌then◌else◌,
}
use curveadm.Display.{normal, or_zero, count_statuses, common_status, merged_status}

occurrences : String → List String → ℕ
occurrences s [] = 0
occurrences s (i ∷ is) = let n = occurrences s is in if normal i == s then suc n else n

occurrences-length : (s : String) (is : List String) → occurrences s is ≤ length is
unfolding occurrences
occurrences-length s [] = omega arith
occurrences-length s (i ∷ is) = elim (Bool-cases (normal i == s)) [
  | inl e ↦ rw (e) (omega (arith, occurrences-length s is))
  | inr e ↦ rw (e) (omega (arith, occurrences-length s is))
]

all_of_them :
    (s : String) (is : List String) → occurrences s is ≡ length is → All (λ i. normal i ≡ s) is
unfolding occurrences
all_of_them s [] h = tt
all_of_them s (i ∷ is) h = elim (Bool-cases (normal i == s)) [
  | inl e ↦
      let g : suc (occurrences s is) ≡ suc (length is) = (rw e at h) in
      ((eq_iff (normal i) s).0 e, all_of_them s is (omega (arith, g)))
  | inr e ↦
      let g : occurrences s is ≡ suc (length is) = (rw e at h) in
      absurd (omega (arith, g, occurrences-length s is))
]

lookup-counted :
    (s : String) (is : List String) (c : Dict ℕ)
    → or_zero (lookup s (count_statuses is c)) ≡ or_zero (lookup s c) + occurrences s is
unfolding count_statuses occurrences
lookup-counted s [] c = omega arith
lookup-counted s (i ∷ is) c =
    let k = suc (or_zero (lookup (normal i) c)) in
    let rest = lookup-counted s is (insert (normal i) k c) in
    elim (Bool-cases (normal i == s)) [
      | inl e ↦
          let same = ap (λ x. or_zero (lookup x c)) ((eq_iff (normal i) s).0 e) in
          let read : or_zero (lookup s (insert (normal i) k c)) ≡ k = rw (lookup-insert, e) refl in
          rw (e) (omega (arith, rest, read, same))
      | inr e ↦
          let read : or_zero (lookup s (insert (normal i) k c)) ≡ or_zero (lookup s c) =
            rw (lookup-insert, e) refl in
          rw (e) (omega (arith, rest, read))
    ]

IsMap-counted : (is : List String) (c : Dict ℕ) → IsMap c → IsMap (count_statuses is c)
unfolding count_statuses
IsMap-counted [] c h = h
IsMap-counted (i ∷ is) c h =
    IsMap-counted is (insert (normal i) (suc (or_zero (lookup (normal i) c))) c)
      (insert-IsMap (normal i) _ c h)

-- The common status is one that was counted `n` times.
common_status-counted :
    (n : ℕ) (c : Dict ℕ) {s : String}
    → IsMap c
    → common_status n c ≡ s
    → (s == "ABNORMAL") ≡ false
    → lookup s c ≡ some n
unfolding common_status lookup
common_status-counted n [] {s} h e a = absurd (ground (arith, a, (eq_iff s "ABNORMAL").1 (sym e)))
common_status-counted n ((j, k) ∷ c) {s} (m, h) e a = elim (Bool-cases (nat_eq k n)) [
  | inl f ↦ let same : j ≡ s = (rw f at e) in rw ((eq_iff j s).1 same) (ap some (ground (arith, f)))
  | inr f ↦
      let rest = common_status-counted n c h (rw f at e) a in
      elim (Bool-cases (j == s)) [
        | inl g ↦
            let no : none ≡ some n = sym m ∙ ap (λ x. lookup x c) ((eq_iff j s).0 g) ∙ rest in cc
        | inr g ↦ rw (g) rest
      ]
]

counted-all :
    (s : String) (is : List String) (k : ℕ)
    → All (λ i. normal i ≡ s) is
    → count_statuses is ((s, k) ∷ []) ≡ (s, k + length is) ∷ []
unfolding count_statuses lookup insert
counted-all s [] k h = ap (λ n. (s, n) ∷ []) (omega arith)
counted-all s (i ∷ is) k (e, h) =
    rw (e, eq_refl) (counted-all s is (suc k) h ∙ ap (λ n. (s, n) ∷ []) (omega arith))

-- The status of two or more replicas is a text other than `ABNORMAL` exactly when every one of
-- them counts as this text, where `Up` counts as `RUNNING` and `Exited` as `STOPPED`.
pub merged_status-IsCommon :
    (a b : String) (is : List String) (s : String)
    → (s == "ABNORMAL") ≡ false
    → (merged_status (a ∷ b ∷ is) ≡ s) ↔ All (λ i. normal i ≡ s) (a ∷ b ∷ is)
unfolding merged_status lookup count_statuses insert common_status
merged_status-IsCommon a b is s n =
    let items = a ∷ b ∷ is in
    (
      λ e.
          let sum = lookup-counted s items [] in
          let read =
            common_status-counted (length items) (count_statuses items [])
              (IsMap-counted items [] tt) e n in
          all_of_them s items (omega (arith, sum, ap or_zero read)),
      λ (e, h).
          let whole : count_statuses items [] ≡ (s, 1 + length (b ∷ is)) ∷ [] =
            rw (e) (counted-all s (b ∷ is) 1 h) in
          let all : nat_eq (1 + length (b ∷ is)) (length items) ≡ true = ground arith in
          ap (common_status (length items)) whole ∙ rw (all) refl,
    )
