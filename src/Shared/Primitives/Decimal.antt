-- ===== src/Shared/Primitives/Decimal.antt =====
-- packages/shared/src/primitives.ts: amounts on the way through decimal text.
use mathlib.Core.List.{append_assoc, append-nil}
use cancel_chain.Common.{
  ℕ, zero, suc, ◌+◌, ◌-◌, ◌*◌, ◌/◌, ◌%◌, ◌≤◌, ◌<◌, ◌≡◌, refl, sym, ap, ◌∙◌, inl, inr, Bool, true,
  false, ◌&&◌, List, [], ◌∷◌, ◌++◌, arith, ltb, leb, Bool-cases, and_true, all, ok,
}
use cancel_chain.Shared.Primitives.{
  u64_max, is_digit, is_decimal, value_from, to_u64, u64_schema, print, from_u64,
}

value_from-snoc :
    (acc : ℕ) (xs : List ℕ) (c : ℕ)
    → value_from acc (xs ++ c ∷ []) ≡ value_from acc xs * 10 + (c - 48)
unfolding value_from
value_from-snoc acc [] c = refl
value_from-snoc acc (x ∷ xs) c = value_from-snoc (acc * 10 + (x - 48)) xs c

pub value_from-print : (f n : ℕ) → n < f → value_from 0 (print f n) ≡ n
unfolding value_from print
value_from-print zero n h = elim h [ ]
value_from-print (suc f) n h = elim (Bool-cases (ltb n 10)) [
  | inl small ↦ rw small (omega arith)
  | inr big ↦
      rw (big, value_from-snoc)
        (let ih : value_from 0 (print f (n / 10)) ≡ n / 10 =
            value_from-print f (n / 10) (ground arith) in
          rw ih (omega arith))
]

-- A digit other than zero, and digits after it.
abbrev leads : List ℕ → Bool
leads [] = false
leads (c ∷ cs) = leb 49 c && leb c 57 && all is_digit cs

all_digits-snoc :
    (xs : List ℕ) (c : ℕ)
    → all is_digit xs ≡ true
    → is_digit c ≡ true
    → all is_digit (xs ++ c ∷ []) ≡ true
all_digits-snoc [] c h k = rw k
all_digits-snoc (x ∷ xs) c h k = ground (arith, all_digits-snoc xs c)

leads-snoc :
    (xs : List ℕ) (c : ℕ) → leads xs ≡ true → is_digit c ≡ true → leads (xs ++ c ∷ []) ≡ true
leads-snoc [] c h k = cc
leads-snoc (x ∷ xs) c h k = ground (arith, all_digits-snoc xs c)

is_digit-mod : (n : ℕ) → is_digit (n % 10 + 48) ≡ true
unfolding is_digit
is_digit-mod n = ground arith

leads-print : (f n : ℕ) → n < f → 0 < n → leads (print f n) ≡ true
unfolding print
leads-print zero n h p = elim h [ ]
leads-print (suc f) n h p = elim (Bool-cases (ltb n 10)) [
  | inl small ↦ rw small (ground arith)
  | inr big ↦ rw big (
      leads-snoc (print f (n / 10)) (n % 10 + 48)
        (leads-print f (n / 10) (ground arith) (ground arith)) (is_digit-mod n))
]

leads-is_decimal : (xs : List ℕ) → leads xs ≡ true → is_decimal xs ≡ true
unfolding is_decimal
leads-is_decimal [] h = cc
leads-is_decimal (x ∷ xs) h = ground arith

zero_is_decimal : is_decimal (print 1 0) ≡ true
unfolding is_decimal print
zero_is_decimal = refl

is_decimal-print : (n : ℕ) → is_decimal (print (suc n) n) ≡ true
is_decimal-print zero = zero_is_decimal
is_decimal-print (suc n) =
    leads-is_decimal _ (leads-print (suc (suc n)) (suc n) (omega arith) (omega arith))

-- An amount that is written as text is accepted by the schema of amounts and reads back as itself,
-- whatever the amount that fits; one that does not fit is refused.
pub u64_schema-from_u64 :
    (n : ℕ) (s : List ℕ)
    → from_u64 n ≡ ok s
    → (u64_schema s ≡ true) × (to_u64 s ≡ n) × (n ≤ u64_max)
unfolding from_u64 u64_schema to_u64
u64_schema-from_u64 n s h =
    ground (arith, is_decimal-print n, value_from-print (suc n) n (omega arith))

print_fuel : (f g n : ℕ) → n < f → n < g → print f n ≡ print g n
unfolding print
print_fuel zero g n h k = elim h [ ]
print_fuel (suc f) zero n h k = elim k [ ]
print_fuel (suc f) (suc g) n h k = ground (arith, print_fuel f g (n / 10))

print_step : (f n : ℕ) → 10 ≤ n → print (suc f) n ≡ print f (n / 10) ++ (n % 10 + 48) ∷ []
unfolding print
print_step f n h = let big : ltb n 10 ≡ false = ground arith in rw big

print-digit :
    (acc c next : ℕ)
    → 0 < acc
    → is_digit c ≡ true
    → next ≡ acc * 10 + (c - 48)
    → print (suc next) next ≡ print (suc acc) acc ++ c ∷ []
unfolding is_digit
print-digit acc c next p h e =
    let high : next / 10 ≡ acc = ground arith in
    let low : next % 10 + 48 ≡ c = ground arith in
    print_step next next (omega arith)
    ∙ (rw (high, low)
        (ap (λ r. r ++ c ∷ []) (print_fuel next (suc acc) acc (omega arith) (omega arith))))

print-value_from :
    (acc : ℕ) (xs : List ℕ) (f : ℕ)
    → 0 < acc
    → all is_digit xs ≡ true
    → value_from acc xs < f
    → print f (value_from acc xs) ≡ print (suc acc) acc ++ xs
unfolding value_from
print-value_from acc [] f p h k = print_fuel f (suc acc) acc k (omega arith) ∙ sym (append-nil _)
print-value_from acc (c ∷ xs) f p h k =
    let next = acc * 10 + (c - 48) in
    let (here, later) = and_true (is_digit c) (all is_digit xs) h in
    print-value_from next xs f (omega arith) later k
    ∙ ap (λ r. r ++ xs) (print-digit acc c next p here refl)
    ∙ append_assoc (print (suc acc) acc) (c ∷ []) xs

print_one : (d : ℕ) → d < 10 → print (suc d) d ≡ (d + 48) ∷ []
unfolding print
print_one d h = let small : ltb d 10 ≡ true = ground arith in rw small

print-to_u64 : (s : List ℕ) → is_decimal s ≡ true → print (suc (to_u64 s)) (to_u64 s) ≡ s
unfolding to_u64 is_decimal
print-to_u64 [] h = cc
print-to_u64 (c ∷ []) h =
    let e : 0 * 10 + (c - 48) ≡ c - 48 = omega arith in
    let same : c - 48 + 48 ≡ c = ground arith in
    rw e (print_one (c - 48) (ground arith) ∙ (rw same))
print-to_u64 (c ∷ d ∷ xs) h =
    let e : 0 * 10 + (c - 48) ≡ c - 48 = omega arith in
    let same : c - 48 + 48 ≡ c = ground arith in
    let later : all is_digit (d ∷ xs) ≡ true = ground arith in
    print-value_from (0 * 10 + (c - 48)) (d ∷ xs) _ (ground arith) later (omega arith)
    ∙ rw e (rw (print_one (c - 48) (ground arith), same))

-- Text that the schema of amounts accepts is exactly what its number prints as: no two accepted
-- texts stand for one amount.
pub from_u64-to_u64 : (s : List ℕ) → u64_schema s ≡ true → from_u64 (to_u64 s) ≡ ok s
unfolding from_u64 u64_schema
from_u64-to_u64 s h =
    let (shape, fits) = and_true (is_decimal s) (leb (to_u64 s) u64_max) h in
    let within : ltb u64_max (to_u64 s) ≡ false = ground arith in
    rw within (ap ok (print-to_u64 s shape))
