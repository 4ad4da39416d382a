-- ===== src/Api/Feed/Order.antt =====
-- apps/api/src/feed.ts: the order of the feed.
use cancel_chain.Common.{
  ◌≡◌, ◌≢◌, Bool, true, false, List, [], ◌∷◌, arith, filter, All, Bool-cases, inl, inr,
}
use cancel_chain.Api.Feed.{StoredEvent, Key, key_of, is_before, place, newest_first}

pub is_before_trans :
    (a b c : Key) → is_before a b ≡ true → is_before b c ≡ true → is_before a c ≡ true
unfolding is_before
is_before_trans a b c h k = ground arith

pub is_before_irrefl : (a : Key) → is_before a a ≡ false
unfolding is_before
is_before_irrefl a = ground arith

is_before_total : (a b : Key) → a.id ≢ b.id → is_before a b ≡ false → is_before b a ≡ true
unfolding is_before
is_before_total a b differ h = ground arith

-- A row is older than another.
abbrev pub IsOlder : StoredEvent → StoredEvent → Type 0
IsOlder r o = is_before (key_of o) (key_of r) ≡ true

abbrev pub Descending : List StoredEvent → Type 0
Descending [] = Unit
Descending (r ∷ rest) = All (IsOlder r) rest × Descending rest

-- The primary key of the table.
abbrev pub AreDistinct : List StoredEvent → Type 0
AreDistinct [] = Unit
AreDistinct (r ∷ rest) = All (λ o. o.id ≢ r.id) rest × AreDistinct rest

module _ (P : StoredEvent → Type 0) where
  place-All : (r : StoredEvent) (rows : List StoredEvent) → P r → All P rows → All P (place r rows)
  unfolding place
  place-All r [] p h = (p, tt)
  place-All r (o ∷ rows) p (q, h) = elim (Bool-cases (is_before (key_of r) (key_of o))) [
    | inl below ↦ rw below (q, place-All r rows p h)
    | inr above ↦ rw above (p, (q, h))
  ]

  newest_first-All : (rows : List StoredEvent) → All P rows → All P (newest_first rows)
  unfolding newest_first
  newest_first-All [] h = tt
  newest_first-All (r ∷ rows) (p, h) = place-All r (newest_first rows) p (newest_first-All rows h)

  pub filter-All :
      (p : StoredEvent → Bool) (rows : List StoredEvent) → All P rows → All P (filter p rows)
  filter-All p [] h = tt
  filter-All p (r ∷ rows) (q, h) = elim (Bool-cases (p r)) [
    | inl kept ↦ rw kept (q, filter-All p rows h)
    | inr left ↦ rw left (filter-All p rows h)
  ]

pub imply-All :
    {P Q : StoredEvent → Type 0} (rows : List StoredEvent)
    → ((o : StoredEvent) → P o → Q o)
    → All P rows
    → All Q rows
imply-All [] f h = tt
imply-All (o ∷ rows) f (p, h) = (f o p, imply-All rows f h)

place-Descending :
    (r : StoredEvent) (rows : List StoredEvent)
    → All (λ o. o.id ≢ r.id) rows
    → Descending rows
    → Descending (place r rows)
unfolding place
place-Descending r [] differ h = (tt, tt)
place-Descending r (o ∷ rows) (other, differ) (older, h) =
    elim (Bool-cases (is_before (key_of r) (key_of o))) [
      | inl below ↦
          rw below (place-All (IsOlder o) r rows below older, place-Descending r rows differ h)
      | inr above ↦
          let first = is_before_total (key_of r) (key_of o) (λ e. other (cc e)) above in
          rw above (
            (
              first,
              imply-All rows (λ x q. is_before_trans (key_of x) (key_of o) (key_of r) q first)
                  older,
            ),
            (older, h),
          )
    ]

pub newest_first-Descending :
    (rows : List StoredEvent) → AreDistinct rows → Descending (newest_first rows)
unfolding newest_first
newest_first-Descending [] h = tt
newest_first-Descending (r ∷ rows) (differ, h) =
    place-Descending r (newest_first rows) (newest_first-All (λ o. o.id ≢ r.id) rows differ)
      (newest_first-Descending rows h)

pub filter-Descending :
    (p : StoredEvent → Bool) (rows : List StoredEvent)
    → Descending rows
    → Descending (filter p rows)
filter-Descending p [] h = tt
filter-Descending p (r ∷ rows) (older, h) = elim (Bool-cases (p r)) [
  | inl kept ↦ rw kept (filter-All (IsOlder r) p rows older, filter-Descending p rows h)
  | inr left ↦ rw left (filter-Descending p rows h)
]
