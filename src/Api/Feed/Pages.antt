-- ===== src/Api/Feed/Pages.antt =====
-- apps/api/src/feed.ts: what one page leaves to the next.
use cancel_chain.Common.{
  ℕ, zero, suc, ◌-◌, ◌≤◌, ◌<◌, ◌≡◌, refl, ap, subst, String, Bool, true, false, Option, none, some,
  List, [], ◌∷◌, ◌++◌, arith, ltb, length, take, drop, filter, All, Bool-cases, inl, inr, ok, ◌>>=◌,
  with_ok,
}
use cancel_chain.Shared.Event.{AllowanceEvent}
use cancel_chain.Api.Feed.{
  StoredEvent, Key, key_of, is_before, is_under, current_feed, latest_creation, as_row,
  event_from_row, events_from_rows, last_of, newest_first, is_current,
}
use cancel_chain.Api.Feed.Order.{
  is_before_trans, is_before_irrefl, IsOlder, Descending, AreDistinct, newest_first-Descending,
  filter-Descending,
}

pub last_of-All :
    (P : StoredEvent → Type 0) (n : ℕ) (rows : List StoredEvent) (k : StoredEvent)
    → All P rows
    → last_of (take n rows) ≡ some k
    → P k
unfolding last_of
last_of-All P zero rows k h e = absurd (ground arith)
last_of-All P (suc n) [] k h e = absurd (ground arith)
last_of-All P (suc zero) (r ∷ rows) k (p, h) e = let same : r ≡ k = ground arith in subst P same p
last_of-All P (suc (suc n)) (r ∷ []) k (p, h) e = let same : r ≡ k = ground arith in subst P same p
last_of-All P (suc (suc n)) (r ∷ o ∷ rows) k (p, h) e = last_of-All P (suc n) (o ∷ rows) k h e

pub filter-same :
    (p : StoredEvent → Bool) (rows : List StoredEvent)
    → All (λ r. p r ≡ true) rows
    → filter p rows ≡ rows
filter-same p [] h = refl
filter-same p (r ∷ rows) (q, h) = rw q (ap (λ x. r ∷ x) (filter-same p rows h))

pub filter-filter :
    (p q : StoredEvent → Bool) (rows : List StoredEvent)
    → ((r : StoredEvent) → q r ≡ true → p r ≡ true)
    → filter q (filter p rows) ≡ filter q rows
filter-filter p q [] f = refl
filter-filter p q (r ∷ rows) f = ground (arith, f r, filter-filter p q rows f)

pub kept-All :
    (p : StoredEvent → Bool) (rows : List StoredEvent) → All (λ r. p r ≡ true) (filter p rows)
kept-All p [] = tt
kept-All p (r ∷ rows) = elim (Bool-cases (p r)) [
  | inl kept ↦ rw kept (kept, kept-All p rows)
  | inr left ↦ rw left (kept-All p rows)
]

not_before : (a b : Key) → is_before a b ≡ true → is_before b a ≡ false
unfolding is_before
not_before a b h = ground arith

abbrev pub below : StoredEvent → StoredEvent → Bool
below k r = is_under (some (key_of k)) r

-- Below the last row of a page is what the page leaves out.
pub filter-below :
    (limit : ℕ) (rows : List StoredEvent)
    → Descending rows
    → suc limit < length rows
    → (k : StoredEvent) × (last_of (take (suc limit) rows) ≡ some k)
      × (filter (below k) rows ≡ drop (suc limit) rows)
unfolding last_of
filter-below limit [] h short = absurd (omega (arith, short))
filter-below zero (r ∷ rows) (older, h) short =
    (r, refl, rw (is_before_irrefl (key_of r)) (filter-same (below r) rows older))
filter-below (suc limit) (r ∷ []) h short = absurd (omega (arith, short))
filter-below (suc limit) (r ∷ o ∷ rows) (older, h) short =
    let (k, last, rest) = filter-below limit (o ∷ rows) h (omega (arith, short)) in
    let above =
      not_before (key_of k) (key_of r)
        (last_of-All (IsOlder r) (suc limit) (o ∷ rows) k older last) in
    (k, last, rw above rest)

module _ (table : List StoredEvent) (pda : String) (after : Option Key) where
  -- The rows of the query before it is cut.
  abbrev pub selected : List StoredEvent
  selected = filter (is_under after) (current_feed pda table)

  pub selected-Descending : AreDistinct table → Descending selected
  unfolding current_feed
  selected-Descending distinct = filter-Descending (is_under after) (current_feed pda table) (
      filter-Descending (is_current pda (latest_creation pda table)) (newest_first table)
        (newest_first-Descending table distinct))

  pub under-last :
      (k r : StoredEvent) → is_under after k ≡ true → below k r ≡ true → is_under after r ≡ true
  under-last k r = go after
    where
      go : (o : Option Key) → is_under o k ≡ true → below k r ≡ true → is_under o r ≡ true
      go none h b = refl
      go (some a) h b = is_before_trans (key_of r) (key_of k) a b h

pub take-take : {A : Type 0} (n : ℕ) (xs : List A) → take n (take (suc n) xs) ≡ take n xs
take-take zero xs = refl
take-take (suc n) [] = refl
take-take (suc n) (x ∷ xs) = ap (λ r. x ∷ r) (take-take n xs)

pub ltb-length-take :
    {A : Type 0} (n : ℕ) (xs : List A) → ltb n (length (take (suc n) xs)) ≡ ltb n (length xs)
ltb-length-take n [] = ground arith
ltb-length-take zero (x ∷ xs) = ground arith
ltb-length-take (suc n) (x ∷ xs) = ground (arith, ltb-length-take n xs)

pub take_whole : {A : Type 0} (n : ℕ) (xs : List A) → length xs ≤ n → take n xs ≡ xs
take_whole zero [] h = refl
take_whole zero (x ∷ xs) h = absurd (omega (arith, h))
take_whole (suc n) [] h = refl
take_whole (suc n) (x ∷ xs) h = ap (λ r. x ∷ r) (take_whole n xs (omega (arith, h)))

pub length-drop : {A : Type 0} (n : ℕ) (xs : List A) → length (drop (suc n) xs) ≤ length xs - 1
length-drop n [] = omega arith
length-drop zero (x ∷ xs) = omega arith
length-drop (suc n) (x ∷ xs) = omega (arith, length-drop n xs)

-- The events of some rows are those of the first ones and of the others.
pub record Parts (n : ℕ) (rows : List StoredEvent) (es : List AllowanceEvent) : Type 0 where
  pub front : List AllowanceEvent
  pub back : List AllowanceEvent
  pub of_front : events_from_rows (take n rows) ≡ ok front
  pub of_back : events_from_rows (drop n rows) ≡ ok back
  pub joined : front ++ back ≡ es

pub split_rows :
    (n : ℕ) (rows : List StoredEvent) (es : List AllowanceEvent)
    → events_from_rows rows ≡ ok es
    → Parts n rows es
unfolding events_from_rows
split_rows zero rows es h = record {
  front = [];
  back = es;
  of_front = refl;
  of_back = h;
  joined = refl;
}
split_rows (suc n) [] es h = record {
  front = [];
  back = es;
  of_front = refl;
  of_back = h;
  joined = refl;
}
split_rows (suc n) (r ∷ rows) es h =
    with_ok (as_row (event_from_row r)) (λ e. events_from_rows rows >>= (λ more. ok (e ∷ more))) h
      (λ e at_e after_e.
        with_ok (events_from_rows rows) (λ more. ok (e ∷ more)) after_e
          (λ more at_more after_more.
            let parts = split_rows n rows more at_more in
            record {
              front = e ∷ parts.front;
              back = parts.back;
              of_front = rw (at_e, parts.of_front) refl;
              of_back = parts.of_back;
              joined = cc (parts.joined, after_more);
            }))
