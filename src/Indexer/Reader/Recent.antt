-- ===== src/Indexer/Reader/Recent.antt =====
-- apps/indexer/src/subscribe.ts: RecentSignatures remembers the last signatures of a bounded number.
use cancel_chain.Common.{
  ℕ, suc, ◌-◌, ◌≡◌, ◌≤◌, ◌<◌, refl, sym, String, true, false, List, [], ◌∷◌, ◌++◌, arith, eq_iff,
  Bool-cases, inl, inr, ◌⊎◌, subst, lt→ltb, ltb, length, length-append, includes, includes-append,
  drop,
}
use cancel_chain.Indexer.Reader.{RecentSignatures, has, without, trim, add}

abbrev pub Distinct : List String → Type 0
Distinct [] = Unit
Distinct (x ∷ xs) = (includes xs x ≡ false) × Distinct xs

-- The set holds what the order holds, once each, and no more than fits.
pub record IsRecent (r : RecentSignatures) : Type 0 where
  pub same : r.members ≡ r.order
  pub distinct : Distinct r.order
  pub bounded : length r.order ≤ r.capacity

without_same : (x : String) (xs : List String) → includes xs x ≡ false → without x xs ≡ xs
unfolding includes
without_same x [] h = refl
without_same x (y ∷ xs) h = ground (arith, without_same x xs, eq_iff x y, eq_iff y x)

Distinct-snoc :
    (xs : List String) (x : String)
    → Distinct xs
    → includes xs x ≡ false
    → Distinct (xs ++ (x ∷ []))
unfolding includes
Distinct-snoc [] x d h = (refl, tt)
Distinct-snoc (y ∷ xs) x (own, d) h = (
  ground (arith, own, includes-append xs (x ∷ []) y, eq_iff x y, eq_iff y x),
  Distinct-snoc xs x d (ground arith),
)

abbrev both : ℕ → List String → RecentSignatures
both capacity order = record { capacity = capacity; order = order; members = order }

trim-over :
    (capacity : ℕ) (x : String) (xs : List String)
    → includes xs x ≡ false
    → capacity < length (x ∷ xs)
    → trim (both capacity (x ∷ xs)) (x ∷ xs) ≡ both capacity xs
unfolding trim
trim-over capacity x xs own over =
    let same : without x (x ∷ xs) ≡ xs = ground (arith, without_same x xs own, eq_iff x x) in
    rw (lt→ltb capacity (length (x ∷ xs)) over, same) refl

trim-fits :
    (capacity : ℕ) (order : List String)
    → length order ≤ capacity
    → trim (both capacity order) order ≡ both capacity order
unfolding trim
trim-fits capacity [] fits = refl
trim-fits capacity (x ∷ xs) fits = ground arith

-- What is remembered after one more: the last ones that fit, in the order of their coming.
abbrev pub IsTail : ℕ → List String → RecentSignatures → Type 0
IsTail capacity order t =
    IsRecent t × (t.order ≡ drop (length order - capacity) order) × (t.capacity ≡ capacity)

drop-none : (n : ℕ) (xs : List String) → n ≡ 0 → drop n xs ≡ xs
drop-none n xs h = rw h refl

drop-one : (n : ℕ) (x : String) (xs : List String) → n ≡ 1 → drop n (x ∷ xs) ≡ xs
drop-one n x xs h = rw h refl

trim_lem :
    (capacity : ℕ) (order : List String)
    → Distinct order
    → length order ≤ suc capacity
    → IsTail capacity order (trim (both capacity order) order)
unfolding trim
trim_lem capacity [] d h = (
  record { same = refl; distinct = tt; bounded = omega arith },
  sym (drop-none (0 - capacity) [] (omega arith)),
  refl,
)
trim_lem capacity (x ∷ xs) (own, d) h = elim (Bool-cases (ltb capacity (length (x ∷ xs)))) [
  | inl over ↦
      let more : capacity < length (x ∷ xs) = ground (arith, over) in
      subst (IsTail capacity (x ∷ xs)) (sym (trim-over capacity x xs own more)) (
        record { same = refl; distinct = d; bounded = omega (arith, h) },
        sym (drop-one (length (x ∷ xs) - capacity) x xs (omega (arith, more, h))),
        refl,
      )
  | inr fits ↦
      let enough : length (x ∷ xs) ≤ capacity = ground (arith, fits) in
      subst (IsTail capacity (x ∷ xs)) (sym (trim-fits capacity (x ∷ xs) enough)) (
        record { same = refl; distinct = (own, d); bounded = enough },
        sym (drop-none (length (x ∷ xs) - capacity) (x ∷ xs) (omega (arith, enough))),
        refl,
      )
]

-- Of the signatures that came, a known one changes nothing, and after a new one exactly the last
-- ones are remembered, as many as fit: its set and its order never part, nothing is kept twice, and
-- the memory does not grow past its capacity.
pub add-IsTail :
    (r : RecentSignatures) (signature : String)
    → IsRecent r
    → ((has r signature ≡ true) × (add r signature ≡ r))
      ⊎ ((has r signature ≡ false)
          × IsTail r.capacity (r.order ++ (signature ∷ [])) (add r signature))
unfolding add has
add-IsTail r signature is = elim (Bool-cases (includes r.members signature)) [
  | inl old ↦ inl (old, rw old refl)
  | inr new ↦
      let grown = r.order ++ (signature ∷ []) in
      let fresh : includes r.order signature ≡ false =
        subst (λ m. includes m signature ≡ false) is.same new in
      let next : add r signature ≡ trim (both r.capacity grown) grown = rw (new, is.same) refl in
      inr (
        new,
        subst (IsTail r.capacity grown) (sym next) (
            trim_lem r.capacity grown (Distinct-snoc r.order signature is.distinct fresh)
              (omega (arith, length-append r.order (signature ∷ []), is.bounded))),
      )
]
