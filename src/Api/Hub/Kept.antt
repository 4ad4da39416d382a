-- ===== src/Api/Hub/Kept.antt =====
-- apps/api/src/stream.ts: opening a stream.
use cancel_chain.Common.{
  ℕ, suc, ◌<◌, ◌≡◌, ◌≢◌, ◌∙◌, refl, sym, ap, subst, String, true, false, Option, none, some, List,
  [], ◌∷◌, ◌++◌, arith, leb, ◌==◌, eq_iff, any, filter, length, All, All-append, Bool-cases, inl,
  inr,
}
use cancel_chain.Common.Dict.{get, set, get-set}
use cancel_chain.Api.Hub.{Ticket, Hub, put, add, make_set, enter, subscribe}
use cancel_chain.Api.Hub.Reached.{
  is_in, subscribers, IsSound, filter-append, subscribers-append, any-fresh, append-AreDistinct,
  imply-All,
}

append_nil : (xs : List ℕ) → xs ++ [] ≡ xs
append_nil [] = refl
append_nil (x ∷ xs) = ap (λ r. x ∷ r) (append_nil xs)

length-snoc : (ts : List Ticket) (t : Ticket) → length (ts ++ (t ∷ [])) ≡ suc (length ts)
length-snoc [] t = refl
length-snoc (u ∷ ts) t = omega (arith, length-snoc ts t)

none-in :
    (n : ℕ) (ts : List Ticket) → All (λ t. t.set_at < n) ts → subscribers (filter (is_in n) ts) ≡ []
none-in n [] h = refl
none-in n (t ∷ ts) (below, h) = ground (arith, below, none-in n ts h)

-- The set that a stream is put into.
record IsPlaced (max_streams : ℕ) (s : Hub) (owner : String) (p : Hub × ℕ) : Type 0 where
  sound : IsSound max_streams p.0
  owned : get owner p.0.by_owner ≡ some p.1
  below : p.1 < p.0.next_set
  same_count : p.0.count ≡ s.count
  same_live : p.0.live ≡ s.live

module _ (max_streams : ℕ) (s : Hub) (h : IsSound max_streams s) where
  make_set-held :
      (at : ℕ)
      → at < suc s.next_set
      → put s.heap s.next_set [] at ≡ subscribers (filter (is_in at) s.live)
  make_set-held at below = elim (Bool-cases (at == s.next_set)) [
    | inl new ↦ rw new (
        sym (
          none-in at s.live
            (imply-All s.live (λ t fit. ground (arith, new, h.made t.owner t.set_at fit)) h.fits)))
    | inr old ↦ rw old (h.held at (ground (arith, below, old)))
  ]

  make_set-fits :
      (owner : String)
      → get owner s.by_owner ≡ none
      → All (λ t. get t.owner (set owner s.next_set s.by_owner) ≡ some t.set_at) s.live
  make_set-fits owner absent =
      imply-All s.live
        (λ t fit.
          ground
            (arith, fit, absent, eq_iff owner t.owner, get-set owner t.owner s.next_set s.by_owner))
        h.fits

  make_set-made :
      (owner o : String) (at : ℕ)
      → get o (set owner s.next_set s.by_owner) ≡ some at
      → at < suc s.next_set
  make_set-made owner o at e = ground (arith, e, get-set owner o s.next_set s.by_owner, h.made o at)

  make_set-apart :
      (owner a b : String) (at : ℕ)
      → get a (set owner s.next_set s.by_owner) ≡ some at
      → get b (set owner s.next_set s.by_owner) ≡ some at
      → a ≡ b
  make_set-apart owner a b at e f = ground (
    arith,
    e,
    f,
    eq_iff owner a,
    eq_iff owner b,
    get-set owner a s.next_set s.by_owner,
    get-set owner b s.next_set s.by_owner,
    h.made a at,
    h.made b at,
    h.apart a b at,
  )

  make_set-IsPlaced :
      (owner : String) (o : Option ℕ)
      → get owner s.by_owner ≡ o
      → IsPlaced max_streams s owner (make_set s owner o)
  make_set-IsPlaced owner (some at) e = record {
    sound = h;
    owned = e;
    below = h.made owner at e;
    same_count = refl;
    same_live = refl;
  }
  make_set-IsPlaced owner none e = record {
    sound = record {
      counted = h.counted;
      bounded = h.bounded;
      distinct = h.distinct;
      held = make_set-held;
      fits = make_set-fits owner e;
      made = make_set-made owner;
      apart = make_set-apart owner;
    };
    owned = ground (arith, eq_iff owner owner, get-set owner owner s.next_set s.by_owner);
    below = omega arith;
    same_count = refl;
    same_live = refl;
  }

module _ (max_streams : ℕ) (s : Hub) (h : IsSound max_streams s) (owner : String) (at x : ℕ)
    (owned : get owner s.by_owner ≡ some at) (below : at < s.next_set)
    (fresh : All (λ t. t.subscriber ≢ x) s.live) (room : s.count < max_streams) where
  abbrev ticket : Ticket
  ticket = record { owner = owner; set_at = at; subscriber = x }

  snoc-subscribers :
      (a : ℕ)
      → subscribers (filter (is_in a) (s.live ++ (ticket ∷ [])))
        ≡ subscribers (filter (is_in a) s.live) ++ subscribers (filter (is_in a) (ticket ∷ []))
  snoc-subscribers a =
      ap subscribers (filter-append (is_in a) s.live (ticket ∷ []))
      ∙ subscribers-append (filter (is_in a) s.live) (filter (is_in a) (ticket ∷ []))

  add_lem : add x (s.heap at) ≡ s.heap at ++ (x ∷ [])
  unfolding add
  add_lem = rw (ap (any (λ y. y == x)) (h.held at below) ∙ any-fresh (is_in at) x s.live fresh) refl

  alone : (a : ℕ) → a == at ≡ true → subscribers (filter (is_in a) (ticket ∷ [])) ≡ x ∷ []
  alone a here = ground arith

  elsewhere : (a : ℕ) → a == at ≡ false → subscribers (filter (is_in a) (ticket ∷ [])) ≡ []
  elsewhere a there = ground arith

  enter-held :
      (a : ℕ)
      → a < s.next_set
      → put s.heap at (add x (s.heap at)) a
        ≡ subscribers (filter (is_in a) (s.live ++ (ticket ∷ [])))
  enter-held a known =
      let before = subscribers (filter (is_in a) s.live) in
      elim (Bool-cases (a == at)) [
        | inl here ↦
            let same : a ≡ at = ground (arith, here) in
            rw here (
              add_lem
              ∙ ap (λ r. r ++ (x ∷ [])) (sym (ap s.heap same) ∙ h.held a known)
              ∙ ap (λ r. before ++ r) (sym (alone a here))
              ∙ sym (snoc-subscribers a))
        | inr there ↦ rw there (
            h.held a known
            ∙ sym (append_nil before)
            ∙ ap (λ r. before ++ r) (sym (elsewhere a there))
            ∙ sym (snoc-subscribers a))
      ]

  enter-IsSound : IsSound max_streams (enter owner x (s, at))
  enter-IsSound = record {
    counted = omega (arith, h.counted, length-snoc s.live ticket);
    bounded = omega (arith, room);
    distinct = append-AreDistinct ticket s.live fresh h.distinct;
    held = enter-held;
    fits =
        All-append (λ t. get t.owner s.by_owner ≡ some t.set_at) s.live (ticket ∷ []) h.fits
          (owned, tt);
    made = h.made;
    apart = h.apart;
  }

pub subscribe-IsSound :
    (max_streams : ℕ) (s : Hub) (owner : String) (x : ℕ)
    → IsSound max_streams s
    → All (λ t. t.subscriber ≢ x) s.live
    → IsSound max_streams (subscribe max_streams s owner x).0
unfolding subscribe
subscribe-IsSound max_streams s owner x h fresh = elim (Bool-cases (leb max_streams s.count)) [
  | inl full ↦ rw full h
  | inr free ↦
      let p = make_set-IsPlaced max_streams s h owner (get owner s.by_owner) refl in
      let made = make_set s owner (get owner s.by_owner) in
      rw free (
        enter-IsSound max_streams made.0 p.sound owner made.1 x p.owned p.below
          (subst (All (λ t. t.subscriber ≢ x)) (sym p.same_live) fresh)
          (ground (arith, p.same_count, free)))
]
