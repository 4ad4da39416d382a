-- ===== src/Api/Hub/Left.antt =====
-- apps/api/src/stream.ts: closing a stream.
use cancel_chain.Common.{
  ℕ, suc, ◌<◌, ◌≡◌, ◌≢◌, ◌∙◌, refl, sym, ap, subst, String, Bool, true, false, not, Option, none,
  some, List, [], ◌∷◌, arith, ◌==◌, ◌&&◌, if◌then◌else◌, eq_iff, filter, find?, length, All,
  Bool-cases, inl, inr,
}
use cancel_chain.Common.Dict.{get, delete, get-delete}
use cancel_chain.Api.Hub.{
  Ticket, Hub, put, other_than, is_empty, is_same, is_of, leave, leave_if, unsubscribe,
}
use cancel_chain.Api.Hub.Reached.{
  AreDistinct, is_in, subscribers, IsSound, filter-All, filter-AreDistinct, filter-subscribers,
  imply-All,
}

both-All :
    {P Q R : Ticket → Type 0} (ts : List Ticket)
    → ((u : Ticket) → P u → Q u → R u)
    → All P ts
    → All Q ts
    → All R ts
both-All [] f p q = tt
both-All (u ∷ ts) f (p, ps) (q, qs) = (f u p q, both-All ts f ps qs)

-- The ticket of a subscriber is the only one of it.
found-only :
    (x : ℕ) (ts : List Ticket) (t : Ticket)
    → AreDistinct ts
    → find? (is_of x) ts ≡ some t
    → All (λ u. u.subscriber ≡ x → u ≡ t) ts
found-only x [] t d e = tt
found-only x (u ∷ ts) t (differ, d) e = elim (Bool-cases (is_of x u)) [
  | inl mine ↦
      let same : u ≡ t = ground (arith, e, mine) in
      ((λ q. same), imply-All ts (λ v ne q. absurd (ne (ground (arith, q, mine)))) differ)
  | inr other ↦
      ((λ q. absurd (ground (arith, q, other))), found-only x ts t d (ground (arith, e, other)))
]

found-All :
    (P : Ticket → Type 0) (x : ℕ) (ts : List Ticket) (t : Ticket)
    → All P ts
    → find? (is_of x) ts ≡ some t
    → P t
found-All P x [] t h e = absurd (ground arith)
found-All P x (u ∷ ts) t (p, h) e = elim (Bool-cases (is_of x u)) [
  | inl mine ↦ let same : u ≡ t = ground (arith, e, mine) in subst P same p
  | inr other ↦ found-All P x ts t h (ground (arith, e, other))
]

all-left :
    (x : ℕ) (ts : List Ticket)
    → All (λ u. u.subscriber ≢ x) ts
    → length (filter (λ u. not (is_of x u)) ts) ≡ length ts
all-left x [] h = refl
all-left x (u ∷ ts) (ne, h) = ground (arith, ne, all-left x ts h)

found-length :
    (x : ℕ) (ts : List Ticket) (t : Ticket)
    → AreDistinct ts
    → find? (is_of x) ts ≡ some t
    → length ts ≡ suc (length (filter (λ u. not (is_of x u)) ts))
found-length x [] t d e = absurd (ground arith)
found-length x (u ∷ ts) t (differ, d) e = elim (Bool-cases (is_of x u)) [
  | inl mine ↦
      ground
        (arith, mine, all-left x ts (imply-All ts (λ v ne q. ne (ground (arith, q, mine))) differ))
  | inr other ↦ ground (arith, other, found-length x ts t d (ground (arith, e, other)))
]

found-is_of :
    (x : ℕ) (ts : List Ticket) (t : Ticket) → find? (is_of x) ts ≡ some t → t.subscriber ≡ x
found-is_of x [] t e = absurd (ground arith)
found-is_of x (u ∷ ts) t e = ground (arith, e, found-is_of x ts t)

-- Another set does not lose the ticket.
filter-others :
    (a : ℕ) (t : Ticket) (ts : List Ticket)
    → t.set_at == a ≡ false
    → All (λ u. u.subscriber ≡ t.subscriber → u ≡ t) ts
    → filter (is_in a) (filter (λ u. not (is_of t.subscriber u)) ts) ≡ filter (is_in a) ts
filter-others a t [] differ h = refl
filter-others a t (u ∷ ts) differ (q, h) = elim (Bool-cases (is_of t.subscriber u)) [
  | inl gone ↦
      let same : u ≡ t = q (ground (arith, gone)) in
      let outside : is_in a u ≡ false = ap (is_in a) same ∙ differ in
      rw (gone, outside) (filter-others a t ts differ h)
  | inr kept ↦ rw kept (ground (arith, filter-others a t ts differ h))
]

nobody-in :
    (a : ℕ) (ts : List Ticket) → subscribers (filter (is_in a) ts) ≡ [] → All (λ u. u.set_at ≢ a) ts
nobody-in a [] e = tt
nobody-in a (u ∷ ts) e = elim (Bool-cases (is_in a u)) [
  | inl here ↦ absurd (ground (arith, e, here))
  | inr there ↦ ((λ q. ground (arith, q, there)), nobody-in a ts (ground (arith, e, there)))
]

empty-nil : (xs : List ℕ) → is_empty xs ≡ true → xs ≡ []
empty-nil [] e = refl
empty-nil (x ∷ xs) e = absurd (ground arith)

module _ (max_streams : ℕ) (s : Hub) (h : IsSound max_streams s) (t : Ticket)
    (found : find? (is_of t.subscriber) s.live ≡ some t) where
  only : All (λ u. u.subscriber ≡ t.subscriber → u ≡ t) s.live
  only = found-only t.subscriber s.live t h.distinct found

  at_owner : get t.owner s.by_owner ≡ some t.set_at
  at_owner =
      found-All (λ u. get u.owner s.by_owner ≡ some u.set_at) t.subscriber s.live t h.fits found

  abbrev others : List Ticket
  others = filter (λ u. not (is_of t.subscriber u)) s.live

  abbrev kept : List ℕ
  kept = filter (other_than t.subscriber) (s.heap t.set_at)

  kept-subscribers : kept ≡ subscribers (filter (is_in t.set_at) others)
  kept-subscribers =
      ap (filter (other_than t.subscriber)) (h.held t.set_at (h.made t.owner t.set_at at_owner))
      ∙ filter-subscribers (is_in t.set_at) t.subscriber s.live

  leave-held :
      (a : ℕ) → a < s.next_set → put s.heap t.set_at kept a ≡ subscribers (filter (is_in a) others)
  leave-held a below = elim (Bool-cases (a == t.set_at)) [
    | inl here ↦
        let same : a ≡ t.set_at = ground (arith, here) in
        rw here (kept-subscribers ∙ ap (λ b. subscribers (filter (is_in b) others)) (sym same))
    | inr there ↦ rw there (
        h.held a below
        ∙ ap subscribers (sym (filter-others a t s.live (ground (arith, there)) only)))
  ]

  abbrev is_last : Bool
  is_last = is_empty kept && is_same (get t.owner s.by_owner) t.set_at

  abbrev owners : List (String × ℕ)
  owners = if is_last then delete t.owner s.by_owner else s.by_owner

  owners-before : (o : String) (at : ℕ) → get o owners ≡ some at → get o s.by_owner ≡ some at
  owners-before o at e = ground (arith, e, get-delete t.owner o s.by_owner)

  leave-fits : All (λ u. get u.owner owners ≡ some u.set_at) others
  leave-fits = elim (Bool-cases is_last) [
    | inl last ↦
        let gone =
          nobody-in t.set_at others
            (sym kept-subscribers ∙ empty-nil kept (ground (arith, last))) in
        let fit =
          filter-All (λ u. get u.owner s.by_owner ≡ some u.set_at) (λ u. not (is_of t.subscriber u))
            s.live h.fits in
        rw last (
          both-All others
            (λ u fits ne. ground (
              arith,
              fits,
              ne,
              at_owner,
              eq_iff t.owner u.owner,
              get-delete t.owner u.owner s.by_owner,
            ))
            fit gone)
    | inr more ↦ rw more (
        filter-All (λ u. get u.owner s.by_owner ≡ some u.set_at) (λ u. not (is_of t.subscriber u))
          s.live h.fits)
  ]

  leave-IsSound : IsSound max_streams (leave s t)
  unfolding leave
  leave-IsSound = record {
    counted = omega (arith, h.counted, found-length t.subscriber s.live t h.distinct found);
    bounded = omega (arith, h.bounded);
    distinct = filter-AreDistinct (λ u. not (is_of t.subscriber u)) s.live h.distinct;
    held = leave-held;
    fits = leave-fits;
    made = λ o at e. h.made o at (owners-before o at e);
    apart = λ a b at e f. h.apart a b at (owners-before a at e) (owners-before b at f);
  }

pub unsubscribe-IsSound :
    (max_streams : ℕ) (s : Hub) (x : ℕ)
    → IsSound max_streams s
    → IsSound max_streams (unsubscribe s x)
unfolding unsubscribe
unsubscribe-IsSound max_streams s x h = go (find? (is_of x) s.live) refl
  where
    go : (o : Option Ticket) → find? (is_of x) s.live ≡ o → IsSound max_streams (leave_if s o)
    go none e = h
    go (some t) e =
        let mine = found-is_of x s.live t e in
        leave-IsSound max_streams s h t (ap (λ y. find? (is_of y) s.live) mine ∙ e)
