-- ===== src/Api/Hub/Reached.antt =====
-- apps/api/src/stream.ts: the states that opening and closing streams leads to.
use cancel_chain.Common.{
  ℕ, ◌≤◌, ◌<◌, ◌≡◌, ◌≢◌, refl, sym, ap, String, Bool, false, not, some, List, [], ◌∷◌, ◌++◌, arith,
  ◌==◌, any, filter, length, All, All-append, Bool-cases, inl, inr,
}
use cancel_chain.Common.Dict.{get}
use cancel_chain.Api.Hub.{Ticket, Hub, empty_hub, other_than, subscribe, is_of, unsubscribe}

-- Every stream has a subscriber of its own.
abbrev pub AreDistinct : List Ticket → Type 0
AreDistinct [] = Unit
AreDistinct (t ∷ ts) = All (λ u. u.subscriber ≢ t.subscriber) ts × AreDistinct ts

abbrev pub is_in : ℕ → Ticket → Bool
is_in at t = t.set_at == at

abbrev pub subscribers : List Ticket → List ℕ
subscribers [] = []
subscribers (t ∷ ts) = t.subscriber ∷ subscribers ts

pub record IsSound (max_streams : ℕ) (s : Hub) : Type 0 where
  pub counted : s.count ≡ length s.live
  pub bounded : s.count ≤ max_streams
  pub distinct : AreDistinct s.live
  pub held : (at : ℕ) → at < s.next_set → s.heap at ≡ subscribers (filter (is_in at) s.live)
  pub fits : All (λ t. get t.owner s.by_owner ≡ some t.set_at) s.live
  pub made : (owner : String) (at : ℕ) → get owner s.by_owner ≡ some at → at < s.next_set
  pub apart :
      (a b : String) (at : ℕ) → get a s.by_owner ≡ some at → get b s.by_owner ≡ some at → a ≡ b

-- One stream opens, with a subscriber that no open stream has, or a stream's end is asked for.
pub data Step (max_streams : ℕ) : Hub → Hub → Type 0 where
  opens :
      (s : Hub) (owner : String) (x : ℕ)
      → All (λ t. t.subscriber ≢ x) s.live
      → Step max_streams s (subscribe max_streams s owner x).0
  ends : (s : Hub) (x : ℕ) → Step max_streams s (unsubscribe s x)

pub data Reached (max_streams : ℕ) : Hub → Type 0 where
  start : Reached max_streams empty_hub
  next : (s r : Hub) → Reached max_streams s → Step max_streams s r → Reached max_streams r

pub filter-append :
    (p : Ticket → Bool) (xs ys : List Ticket) → filter p (xs ++ ys) ≡ filter p xs ++ filter p ys
filter-append p [] ys = refl
filter-append p (x ∷ xs) ys = ground (arith, filter-append p xs ys)

pub subscribers-append :
    (xs ys : List Ticket) → subscribers (xs ++ ys) ≡ subscribers xs ++ subscribers ys
subscribers-append [] ys = refl
subscribers-append (x ∷ xs) ys = ap (λ r. x.subscriber ∷ r) (subscribers-append xs ys)

-- A new subscriber is in no set.
pub any-fresh :
    (p : Ticket → Bool) (x : ℕ) (ts : List Ticket)
    → All (λ t. t.subscriber ≢ x) ts
    → any (λ y. y == x) (subscribers (filter p ts)) ≡ false
any-fresh p x [] h = refl
any-fresh p x (t ∷ ts) (new, h) = ground (arith, new, any-fresh p x ts h)

pub append-AreDistinct :
    (t : Ticket) (ts : List Ticket)
    → All (λ u. u.subscriber ≢ t.subscriber) ts
    → AreDistinct ts
    → AreDistinct (ts ++ (t ∷ []))
append-AreDistinct t [] h d = (tt, tt)
append-AreDistinct t (u ∷ ts) (new, h) (differ, d) = (
  All-append (λ v. v.subscriber ≢ u.subscriber) ts (t ∷ []) differ ((λ e. new (sym e)), tt),
  append-AreDistinct t ts h d,
)

pub filter-All :
    (P : Ticket → Type 0) (p : Ticket → Bool) (ts : List Ticket) → All P ts → All P (filter p ts)
filter-All P p [] h = tt
filter-All P p (t ∷ ts) (q, h) = elim (Bool-cases (p t)) [
  | inl kept ↦ rw kept (q, filter-All P p ts h)
  | inr left ↦ rw left (filter-All P p ts h)
]

pub filter-AreDistinct :
    (p : Ticket → Bool) (ts : List Ticket) → AreDistinct ts → AreDistinct (filter p ts)
filter-AreDistinct p [] d = tt
filter-AreDistinct p (t ∷ ts) (differ, d) = elim (Bool-cases (p t)) [
  | inl kept ↦
      rw kept (filter-All (λ v. v.subscriber ≢ t.subscriber) p ts differ, filter-AreDistinct p ts d)
  | inr left ↦ rw left (filter-AreDistinct p ts d)
]

-- Taking a subscriber out of a set is taking its ticket out.
pub filter-subscribers :
    (p : Ticket → Bool) (x : ℕ) (ts : List Ticket)
    → filter (other_than x) (subscribers (filter p ts))
      ≡ subscribers (filter p (filter (λ u. not (is_of x u)) ts))
filter-subscribers p x [] = refl
filter-subscribers p x (t ∷ ts) = ground (arith, filter-subscribers p x ts)

pub imply-All :
    {P Q : Ticket → Type 0} (ts : List Ticket) → ((t : Ticket) → P t → Q t) → All P ts → All Q ts
imply-All [] f h = tt
imply-All (t ∷ ts) f (p, h) = (f t p, imply-All ts f h)
