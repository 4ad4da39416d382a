-- ===== src/Api/Hub/Delivers.antt =====
-- apps/api/src/stream.ts: to whom the hub sends.
use cancel_chain.Common.{
  ℕ, ◌≤◌, ◌≡◌, ◌∙◌, refl, sym, ap, String, Bool, false, Option, none, some, List, [], ◌∷◌, arith,
  if◌then◌else◌, str_eq, eq_iff, filter, length, All, throw, Bool-cases, ◌⊎◌, inl, inr,
}
use cancel_chain.Common.Dict.{get, has}
use cancel_chain.Api.Hub.{
  Ticket, Hub, empty_hub, Message, resync, Notice, allowance_notice, event_notice, wallet_notice,
  at_set, receivers, send_all, deliver, StreamReaders, handle,
}
use cancel_chain.Api.Hub.Reached.{
  is_in, subscribers, IsSound, Step, opens, ends, Reached, start, next, imply-All,
}
use cancel_chain.Api.Hub.Kept.{subscribe-IsSound}
use cancel_chain.Api.Hub.Left.{unsubscribe-IsSound}

module _ (max_streams : ℕ) where
  empty-IsSound : IsSound max_streams empty_hub
  unfolding get
  empty-IsSound = record {
    counted = refl;
    bounded = omega arith;
    distinct = tt;
    held = λ at below. refl;
    fits = tt;
    made = λ o at e. absurd (ground (arith, e));
    apart = λ a b at e f. absurd (ground (arith, e));
  }

  Step-IsSound : (s r : Hub) → Step max_streams s r → IsSound max_streams s → IsSound max_streams r
  Step-IsSound _ _ (opens s owner x fresh) h = subscribe-IsSound max_streams s owner x h fresh
  Step-IsSound _ _ (ends s x) h = unsubscribe-IsSound max_streams s x h

  Reached-IsSound : (s : Hub) → Reached max_streams s → IsSound max_streams s
  Reached-IsSound _ start = empty-IsSound
  Reached-IsSound _ (next s r before step) = Step-IsSound s r step (Reached-IsSound s before)

abbrev pub is_owned : String → Ticket → Bool
is_owned owner t = str_eq t.owner owner

-- The open streams of a wallet, in the order in which they were opened.
abbrev pub streams_of : Hub → String → List ℕ
streams_of s owner = subscribers (filter (is_owned owner) s.live)

filter-agrees :
    (p q : Ticket → Bool) (ts : List Ticket) → All (λ t. p t ≡ q t) ts → filter p ts ≡ filter q ts
filter-agrees p q [] h = refl
filter-agrees p q (t ∷ ts) (e, h) = ground (arith, e, filter-agrees p q ts h)

filter-none : (p : Ticket → Bool) (ts : List Ticket) → All (λ t. p t ≡ false) ts → filter p ts ≡ []
filter-none p [] h = refl
filter-none p (t ∷ ts) (e, h) = ground (arith, e, filter-none p ts h)

module _ (max_streams : ℕ) (s : Hub) (h : IsSound max_streams s) (owner : String) where
  set-streams : (o : Option ℕ) → get owner s.by_owner ≡ o → at_set s o ≡ streams_of s owner
  set-streams none e = sym (
      ap subscribers (
        filter-none (is_owned owner) s.live
          (imply-All s.live (λ t fit. ground (arith, e, fit, eq_iff t.owner owner)) h.fits)))
  set-streams (some at) e =
      h.held at (h.made owner at e)
      ∙ ap subscribers (
          filter-agrees (is_in at) (is_owned owner) s.live (
            imply-All s.live
              (λ t fit. ground (arith, e, fit, eq_iff t.owner owner, h.apart t.owner owner at))
              h.fits))

  receivers-streams : receivers s owner ≡ streams_of s owner
  unfolding receivers
  receivers-streams = set-streams (get owner s.by_owner) refl

-- However streams, each with a subscriber of its own, were opened and closed before, what is
-- delivered to a wallet goes to its open streams and to no other, once to each in the order of
-- their opening, and the hub counts its open streams and never holds more than it may.
pub deliver-streams :
    (max_streams : ℕ) (s : Hub) (owner : String) (message : Message)
    → Reached max_streams s
    → (deliver s owner message ≡ send_all (streams_of s owner) message)
      × (s.count ≡ length s.live)
      × (s.count ≤ max_streams)
unfolding deliver
deliver-streams max_streams s owner message reached =
    let h = Reached-IsSound max_streams s reached in
    (ap (λ r. send_all r message) (receivers-streams max_streams s h owner), h.counted, h.bounded)

-- A notice of a wallet after which its streams have missed a change: its row could not be read, or
-- no row says what changed; then nothing is read, and the hub stays as it is.
abbrev pub IsMissed : StreamReaders → Hub → Hub → String → Notice → Type 0
IsMissed read s later owner (event_notice id pda o) =
    (o ≡ some owner) × (e : Unit {0}) × (read.event id ≡ throw e)
IsMissed read s later owner (allowance_notice pda o) =
    (o ≡ owner) × (e : Unit {0}) × (read.allowance pda ≡ throw e)
IsMissed read s later owner (wallet_notice o) = (o ≡ owner) × (later ≡ s)

module _ (read : StreamReaders) (s later : Hub) (owner : String) where
  abbrev if_streams : List (ℕ × Message)
  if_streams = if has owner s.by_owner then deliver later owner resync else []

  handle-deliver :
      (n : Notice) → IsMissed read s later owner n → handle read s later (some n) ≡ if_streams
  unfolding handle
  handle-deliver (event_notice id pda o) (same, e, failed) = rw (same, failed) refl
  handle-deliver (allowance_notice pda o) (same, e, failed) = rw (same, failed) refl
  handle-deliver (wallet_notice o) (same, still) = rw (same, still) refl

  unknown-none : has owner s.by_owner ≡ false → receivers s owner ≡ []
  unfolding receivers
  unknown-none unknown = ground (arith, unknown)

-- A missed change is never silent: after a notice whose row could not be read, or of a whole
-- wallet, every stream of that wallet that is open once the reading is over, and no other, is told
-- to read everything again, unless no stream of it was open when the notice came; then nothing is
-- sent.
pub handle-missed :
    (read : StreamReaders) (max_streams : ℕ) (s later : Hub) (owner : String) (n : Notice)
    → Reached max_streams s
    → Reached max_streams later
    → IsMissed read s later owner n
    → (handle read s later (some n) ≡ send_all (streams_of later owner) resync)
      ⊎ ((streams_of s owner ≡ []) × (handle read s later (some n) ≡ []))
handle-missed read max_streams s later owner n reached still missed =
    let handled = handle-deliver read s later owner n missed in
    elim (Bool-cases (has owner s.by_owner)) [
      | inl known ↦ inl (
          handled
          ∙ ground (arith, known)
          ∙ (deliver-streams max_streams later owner resync still).0)
      | inr unknown ↦ inr (
        sym (receivers-streams max_streams s (Reached-IsSound max_streams s reached) owner)
            ∙ unknown-none read s later owner unknown,
        handled ∙ ground (arith, unknown),
      )
    ]
