-- ===== src/Shared/Format/Exact.antt =====
-- packages/shared/src/format.ts: a scaled amount read back.
use native.Mathlib.Omega.{pow_step}
use cancel_chain.Common.{
  ℕ, zero, suc, ◌+◌, ◌-◌, ◌*◌, ◌/◌, ◌%◌, ◌^◌, ◌≡◌, ◌≤◌, ◌<◌, refl, ap, sym, ◌∙◌, inl, inr, List, [],
  ◌∷◌, ◌++◌, arith, ltb, ◌==◌, true, Bool-cases, All, All-append, All-take, length, length-append,
  take,
}
use cancel_chain.Shared.Primitives.{value_from, print}
use cancel_chain.Shared.Primitives.Decimal.{value_from-print}
use cancel_chain.Shared.Format.{
  digits, zeros, drop_zero, trim_end, max, min_fraction_digits, shown_fraction, fraction_digits,
  scale_amount,
}

ten_add : (m n : ℕ) → 10 ^ (m + n) ≡ 10 ^ m * 10 ^ n
ten_add zero n = let same : 0 + n ≡ n = omega arith in ap (λ k. 10 ^ k) same ∙ (omega arith)
ten_add (suc m) n =
    let same : suc m + n ≡ suc (m + n) = omega arith in
    let step : 10 * 10 ^ (m + n) ≡ 10 * 10 ^ m * 10 ^ n = omega (arith, ten_add m n) in
    ap (λ k. 10 ^ k) same ∙ pow_step 10 (m + n) ∙ step ∙ ap (λ k. k * 10 ^ n) (sym (pow_step 10 m))

algebra : (w v a p m : ℕ) → (w * (a * p) + v * p) * (a * m) ≡ (w * (a * m) + v * m) * (a * p)
algebra w v a p m = omega arith

scaled :
    (amount w t f d v a p m k : ℕ)
    → amount ≡ w * d + v
    → t ≡ a * p
    → f ≡ k * p
    → d ≡ a * m
    → v ≡ k * m
    → (w * t + f) * d ≡ amount * t
scaled amount w t f d v a p m k whole wide shown long spelled =
    rw (whole, wide, shown, long, spelled) (algebra w k a p m)

ten_positive : (n : ℕ) → 1 ≤ 10 ^ n
ten_positive zero = omega arith
ten_positive (suc n) = omega (arith, pow_step 10 n, ten_positive n)

-- The number that a text of digits spells.
abbrev pub value : List ℕ → ℕ
value = value_from 0

value_from-append :
    (acc : ℕ) (xs ys : List ℕ) → value_from acc (xs ++ ys) ≡ value_from (value_from acc xs) ys
unfolding value_from
value_from-append acc [] ys = refl
value_from-append acc (x ∷ xs) ys = value_from-append (acc * 10 + (x - 48)) xs ys

value_from-zeros : (acc n : ℕ) → value_from acc (zeros n) ≡ acc * 10 ^ n
unfolding value_from
value_from-zeros acc zero = omega arith
value_from-zeros acc (suc n) =
    let step : (acc * 10 + (48 - 48)) * 10 ^ n ≡ acc * (10 * 10 ^ n) = omega arith in
    value_from-zeros (acc * 10 + (48 - 48)) n ∙ step ∙ ap (λ k. acc * k) (sym (pow_step 10 n))

value-padded : (xs : List ℕ) (n : ℕ) → value (xs ++ zeros n) ≡ value xs * 10 ^ n
value-padded xs n = value_from-append 0 xs (zeros n) ∙ value_from-zeros (value xs) n

value-led : (n : ℕ) (xs : List ℕ) → value (zeros n ++ xs) ≡ value xs
value-led n xs =
    let none_of : value (zeros n) ≡ 0 = value_from-zeros 0 n ∙ (omega arith) in
    value_from-append 0 (zeros n) xs ∙ ap (λ acc. value_from acc xs) none_of

length-zeros : (n : ℕ) → length (zeros n) ≡ n
length-zeros zero = refl
length-zeros (suc n) = omega (arith, length-zeros n)

-- A number below a power of ten has no more digits than the power says.
length-print : (f n d : ℕ) → n < f → n < 10 ^ suc d → length (print f n) ≤ suc d
unfolding print
length-print zero n d h k = absurd (omega (arith, h))
length-print (suc f) n zero h k =
    let small : ltb n 10 ≡ true = ground (arith, k) in rw small (omega arith)
length-print (suc f) n (suc d) h k = elim (Bool-cases (ltb n 10)) [
  | inl small ↦ rw small (omega arith)
  | inr big ↦
      let shorter =
        length-print f (n / 10) d (ground (arith, h, big))
          (omega (arith, k, pow_step 10 (suc d))) in
      rw big (omega (arith, length-append (print f (n / 10)) ((n % 10 + 48) ∷ []), shorter))
]

-- What is trimmed are zeros.
drop_zero_lem :
    (c : ℕ) (t : List ℕ) (z : ℕ) (xs : List ℕ)
    → xs ≡ t ++ zeros z
    → (n : ℕ) × (c ∷ xs ≡ drop_zero c t ++ zeros n)
drop_zero_lem c [] z xs h = elim (Bool-cases (c == 48)) [
  | inl zero_digit ↦
      let own : c ≡ 48 = ground (arith, zero_digit) in
      (suc z, rw zero_digit (rw own (ap (λ r. 48 ∷ r) h)))
  | inr digit ↦ (z, rw digit (ap (λ r. c ∷ r) h))
]
drop_zero_lem c (d ∷ t) z xs h = (z, ap (λ r. c ∷ r) h)

trim_end-zeros : (xs : List ℕ) → (z : ℕ) × (xs ≡ trim_end xs ++ zeros z)
unfolding trim_end
trim_end-zeros [] = (0, refl)
trim_end-zeros (c ∷ xs) =
    let (z, same) = trim_end-zeros xs in drop_zero_lem c (trim_end xs) z xs same

take-zeros :
    (t : List ℕ) (z k : ℕ)
    → length t ≤ k
    → (m : ℕ) × (t ++ zeros z ≡ take k (t ++ zeros z) ++ zeros m)
take-zeros [] zero zero h = (0, refl)
take-zeros [] zero (suc k) h = (0, refl)
take-zeros [] (suc z) zero h = (suc z, refl)
take-zeros [] (suc z) (suc k) h =
    let (m, same) = take-zeros [] z k (omega arith) in (m, ap (λ r. 48 ∷ r) same)
take-zeros (c ∷ t) z zero h = absurd (omega (arith, h))
take-zeros (c ∷ t) z (suc k) h =
    let (m, same) = take-zeros t z k (omega (arith, h)) in (m, ap (λ r. c ∷ r) same)

-- A fraction of so many digits, and what is shown of it: the same digits but for zeros at the end.
record IsFraction (n d : ℕ) (fraction : List ℕ) : Type 0 where
  spells : value fraction ≡ n
  long : length fraction ≡ d

fraction_digits-IsFraction :
    (amount d : ℕ) → IsFraction (amount % 10 ^ suc d) (suc d) (fraction_digits amount (suc d))
unfolding fraction_digits digits
fraction_digits-IsFraction amount d =
    let n = amount % 10 ^ suc d in
    let small : n < 10 ^ suc d = omega (arith, ten_positive (suc d)) in
    let own = length-print (suc n) n d (omega arith) small in
    record {
      spells =
          value-led (suc d - length (print (suc n) n)) (print (suc n) n)
          ∙ value_from-print (suc n) n (omega arith);
      long = omega (
        arith,
        length-append (zeros (suc d - length (print (suc n) n))) (print (suc n) n),
        length-zeros (suc d - length (print (suc n) n)),
        own,
      );
    }

record IsShown (fraction shown : List ℕ) : Type 0 where
  cut : ℕ
  added : ℕ
  kept : List ℕ
  before : fraction ≡ kept ++ zeros cut
  after : shown ≡ kept ++ zeros added
  two : 2 ≤ length shown

shown_fraction-IsShown : (fraction : List ℕ) → IsShown fraction (shown_fraction fraction)
unfolding shown_fraction
shown_fraction-IsShown fraction =
    let (z, trimmed) = trim_end-zeros fraction in
    let k = max min_fraction_digits (length (trim_end fraction)) in
    let (m, same) = take-zeros (trim_end fraction) z k (ground arith) in
    let kept = take k fraction in
    let missing = min_fraction_digits - length kept in
    record {
      cut = m;
      added = missing;
      kept = kept;
      before = trimmed ∙ same ∙ ap (λ t. take k t ++ zeros m) (sym trimmed);
      after = refl;
      two = omega (arith, length-append kept (zeros missing), length-zeros missing);
    }

-- A text of nothing but the digits from 0 to 9.
abbrev pub AreDigits : List ℕ → Type 0
AreDigits = All (λ c. (48 ≤ c) × (c ≤ 57))

zeros-AreDigits : (n : ℕ) → AreDigits (zeros n)
zeros-AreDigits zero = tt
zeros-AreDigits (suc n) = ((omega arith, omega arith), zeros-AreDigits n)

print-AreDigits : (f n : ℕ) → AreDigits (print f n)
unfolding print
print-AreDigits zero n = tt
print-AreDigits (suc f) n = elim (Bool-cases (ltb n 10)) [
  | inl small ↦ rw small ((omega arith, ground (arith, small)), tt)
  | inr big ↦ rw big (
      All-append (λ c. (48 ≤ c) × (c ≤ 57)) (print f (n / 10)) ((n % 10 + 48) ∷ [])
        (print-AreDigits f (n / 10)) ((omega arith, omega arith), tt))
]

shown_fraction-AreDigits : (text : List ℕ) → AreDigits text → AreDigits (shown_fraction text)
unfolding shown_fraction
shown_fraction-AreDigits text h =
    let kept = take (max min_fraction_digits (length (trim_end text))) text in
    let IsDigit : ℕ → Type 0 = λ c. (48 ≤ c) × (c ≤ 57) in
    All-append IsDigit kept (zeros (min_fraction_digits - length kept))
      (All-take IsDigit (max min_fraction_digits (length (trim_end text))) text h)
      (zeros-AreDigits (min_fraction_digits - length kept))

fraction_digits-AreDigits : (amount d : ℕ) → AreDigits (fraction_digits amount d)
unfolding fraction_digits digits
fraction_digits-AreDigits amount d =
    let n = amount % 10 ^ d in
    All-append (λ c. (48 ≤ c) × (c ≤ 57)) (zeros (d - length (print (suc n) n))) (print (suc n) n)
      (zeros-AreDigits (d - length (print (suc n) n))) (print-AreDigits (suc n) n)

-- A scaled amount is the whole amount: the text is digits, a point and two digits or more, and read
-- back as a decimal number it is the amount over its power of ten, no part of it rounded away.
pub scale_amount-value :
    (amount d : ℕ)
    → (whole : List ℕ) × (fraction : List ℕ) × (scale_amount amount (suc d)
        ≡ whole ++ (46 ∷ fraction))
      × (AreDigits whole × AreDigits fraction × (2 ≤ length fraction))
      × ((value whole * 10 ^ length fraction + value fraction) * 10 ^ suc d
          ≡ amount * 10 ^ length fraction)
unfolding scale_amount digits
scale_amount-value amount d =
    let q = amount / 10 ^ suc d in
    let digits_of = fraction_digits amount (suc d) in
    let is = fraction_digits-IsFraction amount d in
    let shown = shown_fraction-IsShown digits_of in
    let fraction = shown_fraction digits_of in
    let a = length shown.kept in
    let long : length fraction ≡ a + shown.added =
      ap length shown.after
      ∙ length-append shown.kept (zeros shown.added)
      ∙ ap (λ n. a + n) (length-zeros shown.added) in
    let wide : suc d ≡ a + shown.cut =
      sym is.long
      ∙ ap length shown.before
      ∙ length-append shown.kept (zeros shown.cut)
      ∙ ap (λ n. a + n) (length-zeros shown.cut) in
    let split : amount ≡ q * 10 ^ suc d + amount % 10 ^ suc d =
      omega (arith, ten_positive (suc d)) in
    (
      print (suc q) q,
      fraction,
      refl,
      (
        print-AreDigits (suc q) q,
        shown_fraction-AreDigits digits_of (fraction_digits-AreDigits amount (suc d)),
        shown.two,
      ),
      ap (λ w. (w * 10 ^ length fraction + value fraction) * 10 ^ suc d)
            (value_from-print (suc q) q (omega arith))
          ∙ scaled amount q (10 ^ length fraction) (value fraction) (10 ^ suc d)
              (amount % 10 ^ suc d) (10 ^ a) (10 ^ shown.added) (10 ^ shown.cut) (value shown.kept)
              split (ap (λ n. 10 ^ n) long ∙ ten_add a shown.added)
              (ap value shown.after ∙ value-padded shown.kept shown.added)
              (ap (λ n. 10 ^ n) wide ∙ ten_add a shown.cut)
              (sym is.spells ∙ ap value shown.before ∙ value-padded shown.kept shown.cut),
    )
