-- ===== src/Api/Hub.antt =====
-- apps/api/src/stream.ts: the fan-out of the database's notices to the open streams of one wallet.
-- A subscriber is a number and names the function that ends its stream too; the sets of subscribers
-- are objects on a heap, which the map of owners and those functions share. Reading a notice's text
-- is a parameter, as are the two readers.
pub mod Reached
pub mod Kept
pub mod Left
pub mod Delivers
use cancel_chain.Common.{
  ℕ, zero, suc, ◌+◌, ◌-◌, String, Bool, true, false, not, ◌&&◌, Option, none, some, List, [], ◌∷◌,
  ◌++◌, leb, ◌==◌, if◌then◌else◌, any, filter, find?, Result, ok, throw,
}
use cancel_chain.Common.Dict.{get, set, delete, has}
use cancel_chain.Shared.Allowance.{Allowance}
use cancel_chain.Shared.Event.{AllowanceEvent}

-- What the function that `subscribe` returns holds, as long as it was not called.
pub record Ticket : Type 0 where
  pub owner : String
  pub set_at : ℕ
  pub subscriber : ℕ

pub record Hub : Type 0 where
  pub heap : ℕ → List ℕ
  pub next_set : ℕ
  pub by_owner : List (String × ℕ)
  pub count : ℕ
  pub live : List Ticket

abbrev pub empty_hub : Hub
empty_hub = record { heap = λ at. []; next_set = 0; by_owner = []; count = 0; live = [] }

-- `set.add` and `set.delete`
abbrev pub put : (ℕ → List ℕ) → ℕ → List ℕ → ℕ → List ℕ
put heap at xs a = if a == at then xs else heap a

unfoldable pub add : ℕ → List ℕ → List ℕ
add x xs = if any (λ y. y == x) xs then xs else xs ++ (x ∷ [])

abbrev pub other_than : ℕ → ℕ → Bool
other_than x y = not (y == x)

abbrev pub is_empty {ℓ} : {A : Type ℓ} → List A → Bool
is_empty [] = true
is_empty (x ∷ xs) = false

-- The owner's set, made where there is none.
abbrev pub make_set : Hub → String → Option ℕ → Hub × ℕ
make_set s owner (some at) = (s, at)
make_set s owner none = (
  record s {
    heap = put s.heap s.next_set [];
    next_set = suc s.next_set;
    by_owner = set owner s.next_set s.by_owner;
  },
  s.next_set,
)

abbrev pub enter : String → ℕ → Hub × ℕ → Hub
enter owner x (s, at) = record s {
  heap = put s.heap at (add x (s.heap at));
  count = suc s.count;
  live = s.live ++ (record { owner = owner; set_at = at; subscriber = x } ∷ []);
}

-- `subscribe`: the hub, and whether it took the stream.
unfoldable pub subscribe : ℕ → Hub → String → ℕ → Hub × Bool
subscribe max_streams s owner x =
    if leb max_streams s.count
    then (s, false)
    else (enter owner x (make_set s owner (get owner s.by_owner)), true)

abbrev pub is_same : Option ℕ → ℕ → Bool
is_same none at = false
is_same (some a) at = a == at

abbrev pub is_of : ℕ → Ticket → Bool
is_of x t = t.subscriber == x

unfoldable pub leave : Hub → Ticket → Hub
leave s t =
    let kept = filter (other_than t.subscriber) (s.heap t.set_at) in
    record s {
      heap = put s.heap t.set_at kept;
      count = s.count - 1;
      by_owner =
          if is_empty kept && is_same (get t.owner s.by_owner) t.set_at
          then delete t.owner s.by_owner
          else s.by_owner;
      live = filter (λ u. not (is_of t.subscriber u)) s.live;
    }

abbrev pub leave_if : Hub → Option Ticket → Hub
leave_if s none = s
leave_if s (some t) = leave s t

-- The function that `subscribe` returned is called; a second call does nothing.
unfoldable pub unsubscribe : Hub → ℕ → Hub
unsubscribe s x = leave_if s (find? (is_of x) s.live)

pub data Message : Type 0 where
  resync : Message
  allowance_updated : Allowance → Message
  event_appended : String → AllowanceEvent → Message

pub data Notice : Type 0 where
  event_notice : (id : String) (pda : String) (owner : Option String) → Notice
  allowance_notice : (pda : String) (owner : String) → Notice
  wallet_notice : (owner : String) → Notice

abbrev pub at_set : Hub → Option ℕ → List ℕ
at_set s none = []
at_set s (some at) = s.heap at

-- `byOwner.get(owner) ?? []`
unfoldable pub receivers : Hub → String → List ℕ
receivers s owner = at_set s (get owner s.by_owner)

unfoldable pub send_all : List ℕ → Message → List (ℕ × Message)
send_all [] message = []
send_all (x ∷ xs) message = (x, message) ∷ send_all xs message

unfoldable pub deliver : Hub → String → Message → List (ℕ × Message)
deliver s owner message = send_all (receivers s owner) message

-- What the readers answer: a row, none, or a failure.
pub record StreamReaders : Type 0 where
  pub allowance : String → Result (Unit {0}) (Option Allowance)
  pub event : String → Result (Unit {0}) (Option AllowanceEvent)

-- The hub when a notice comes, and as it is once the row is read: streams open and close meanwhile.
module _ (read : StreamReaders) (s later : Hub) where
  abbrev pub tell_allowance : String → Result (Unit {0}) (Option Allowance) → List (ℕ × Message)
  tell_allowance owner (throw e) = deliver later owner resync
  tell_allowance owner (ok none) = []
  tell_allowance owner (ok (some a)) = deliver later owner (allowance_updated a)

  abbrev pub tell_event : String → Result (Unit {0}) (Option AllowanceEvent) → List (ℕ × Message)
  tell_event owner (throw e) = deliver later owner resync
  tell_event owner (ok none) = []
  tell_event owner (ok (some e)) = deliver later owner (event_appended e.allowance_pda e)

  abbrev pub has_streams : String → Bool
  has_streams owner = has owner s.by_owner

  -- `handle`: what is sent, to whom. Nothing is read for a notice of the whole wallet.
  unfoldable pub handle : Option Notice → List (ℕ × Message)
  handle none = []
  handle (some (event_notice id pda none)) = []
  handle (some (event_notice id pda (some owner))) =
      if has_streams owner then tell_event owner (read.event id) else []
  handle (some (allowance_notice pda owner)) =
      if has_streams owner then tell_allowance owner (read.allowance pda) else []
  handle (some (wallet_notice owner)) = if has_streams owner then deliver s owner resync else []
