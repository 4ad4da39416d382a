-- ===== src/Indexer/Reader/Paging.antt =====
-- apps/indexer/src/subscribe.ts and poll.ts: cutting a history, newest first, into pages.
use cancel_chain.Common.{
  ℕ, zero, suc, ◌+◌, ◌-◌, ◌≡◌, ◌≤◌, ◌<◌, refl, ap, ◌∙◌, String, Bool, true, false, Option, none,
  some, List, [], ◌∷◌, ◌++◌, arith, length, take, drop, filter, get_elem?, All,
}

module _ {A : Type 0} where
  drop-nil : (n : ℕ) → [] ≡ drop {A = A} n []
  drop-nil zero = refl
  drop-nil (suc n) = refl

  pub take-all : (n : ℕ) (xs : List A) → length xs ≤ n → take n xs ≡ xs
  take-all zero [] h = refl
  take-all zero (x ∷ xs) h = absurd (omega (arith, h))
  take-all (suc n) [] h = refl
  take-all (suc n) (x ∷ xs) h = ap (λ t. x ∷ t) (take-all n xs (omega (arith, h)))

  pub take-drop : (n : ℕ) (xs : List A) → take n xs ++ drop n xs ≡ xs
  take-drop zero xs = refl
  take-drop (suc n) [] = refl
  take-drop (suc n) (x ∷ xs) = ap (λ t. x ∷ t) (take-drop n xs)

  pub drop-drop : (n p m : ℕ) (xs : List A) → m ≡ n + p → drop p (drop n xs) ≡ drop m xs
  drop-drop zero p m xs h = let same : p ≡ m = omega (arith, h) in ap (λ k. drop k xs) same
  drop-drop (suc n) zero m [] h = drop-nil m
  drop-drop (suc n) (suc p) m [] h = drop-nil m
  drop-drop (suc n) p zero (x ∷ xs) h = absurd (omega (arith, h))
  drop-drop (suc n) p (suc m) (x ∷ xs) h = drop-drop n p m xs (omega (arith, h))

  pub length-drop : (n : ℕ) (xs : List A) → length (drop n xs) ≡ length xs - n
  length-drop zero xs = omega arith
  length-drop (suc n) [] = omega arith
  length-drop (suc n) (x ∷ xs) = omega (arith, length-drop n xs)

  pub length-take-short : (n : ℕ) (xs : List A) → length (take n xs) < n → length xs < n
  length-take-short zero xs h = absurd (omega (arith, h))
  length-take-short (suc n) [] h = omega arith
  length-take-short (suc n) (x ∷ xs) h = omega (arith, length-take-short n xs (omega (arith, h)))

  pub length-take-full : (n : ℕ) (xs : List A) → n ≤ length (take n xs) → n ≤ length xs
  length-take-full zero xs h = omega arith
  length-take-full (suc n) [] h = absurd (omega (arith, h))
  length-take-full (suc n) (x ∷ xs) h = omega (arith, length-take-full n xs (omega (arith, h)))

  pub take-append :
      (n : ℕ) (xs ys : List A) → length xs ≤ n → take n (xs ++ ys) ≡ xs ++ take (n - length xs) ys
  take-append n [] ys h = let same : n ≡ n - 0 = omega arith in ap (λ k. take k ys) same
  take-append zero (x ∷ xs) ys h = absurd (omega (arith, h))
  take-append (suc n) (x ∷ xs) ys h =
      let same : n - length xs ≡ suc n - suc (length xs) = omega arith in
      ap (λ t. x ∷ t) (take-append n xs ys (omega (arith, h)) ∙ ap (λ k. xs ++ take k ys) same)

  pub take-inner : (n : ℕ) (xs ys : List A) → n ≤ length xs → take n (xs ++ ys) ≡ take n xs
  take-inner zero xs ys h = refl
  take-inner (suc n) [] ys h = absurd (omega (arith, h))
  take-inner (suc n) (x ∷ xs) ys h = ap (λ t. x ∷ t) (take-inner n xs ys (omega (arith, h)))

  pub drop-append : (n : ℕ) (xs ys : List A) → n ≤ length xs → drop n (xs ++ ys) ≡ drop n xs ++ ys
  drop-append zero xs ys h = refl
  drop-append (suc n) [] ys h = absurd (omega (arith, h))
  drop-append (suc n) (x ∷ xs) ys h = drop-append n xs ys (omega (arith, h))

  pub All-drop : (P : A → Type 0) (n : ℕ) (xs : List A) → All P xs → All P (drop n xs)
  All-drop P zero xs h = h
  All-drop P (suc n) [] h = tt
  All-drop P (suc n) (x ∷ xs) (_, h) = All-drop P n xs h

  pub filter-all : (p : A → Bool) (xs : List A) → All (λ x. p x ≡ true) xs → filter p xs ≡ xs
  filter-all p [] h = refl
  filter-all p (x ∷ xs) (k, h) = rw k (ap (λ t. x ∷ t) (filter-all p xs h))

  pub filter-none : (p : A → Bool) (xs : List A) → All (λ x. p x ≡ false) xs → filter p xs ≡ []
  filter-none p [] h = refl
  filter-none p (x ∷ xs) (k, h) = rw k (filter-none p xs h)

-- The last item of a page is the one before the next page.
module _ {A : Type 0} (key : A → String) where
  abbrev pub key_of : Option A → Option String
  key_of none = none
  key_of (some x) = some (key x)

  -- What stands before the n-th item of a list: nothing before the first.
  abbrev pub before : List A → ℕ → Option String
  before xs zero = none
  before xs (suc n) = key_of (get_elem? xs n)

  abbrev pub last_key : List A → Option String
  last_key [] = none
  last_key (x ∷ []) = some (key x)
  last_key (x ∷ y ∷ xs) = last_key (y ∷ xs)

  last-take :
      (page : ℕ) (gap : List A)
      → suc page ≤ length gap
      → last_key (take (suc page) gap) ≡ key_of (get_elem? gap page)
  last-take zero [] h = absurd (omega (arith, h))
  last-take zero (x ∷ gap) h = refl
  last-take (suc page) [] h = absurd (omega (arith, h))
  last-take (suc page) (x ∷ []) h = absurd (omega (arith, h))
  last-take (suc page) (x ∷ y ∷ gap) h = last-take page (y ∷ gap) (omega (arith, h))

  pub last-before :
      (n page m : ℕ) (gap : List A)
      → m ≡ n + page
      → suc m ≤ length gap
      → last_key (take (suc page) (drop n gap)) ≡ key_of (get_elem? gap m)
  last-before zero page m gap h k =
      let same : page ≡ m = omega (arith, h) in
      last-take page gap (omega (arith, h, k)) ∙ ap (λ i. key_of (get_elem? gap i)) same
  last-before (suc n) page m [] h k = absurd (omega (arith, k))
  last-before (suc n) page zero (x ∷ gap) h k = absurd (omega (arith, h))
  last-before (suc n) page (suc m) (x ∷ gap) h k =
      last-before n page m gap (omega (arith, h)) (omega (arith, k))
