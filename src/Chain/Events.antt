-- ===== src/Chain/Events.antt =====
-- packages/chain/src/events.ts: the events that the program writes into its transactions. The codecs
-- of the payloads are an argument here; Layouts has the ones of `CODECS`.
pub mod Trip
pub mod Layouts
pub mod Fields
use cancel_chain.Common.{
  ℕ, zero, suc, ◌+◌, String, Bool, true, false, not, ◌&&◌, Option, none, some, List, [], ◌∷◌, ◌++◌,
  drop, length, get_elem?, ◌==◌, ltb, if◌then◌else◌,
}
use cancel_chain.Common.Int.{ℤ}

-- `EVENT_TAG`
abbrev pub event_tag : List ℕ
event_tag = 0xe4 ∷ 0x45 ∷ 0xa5 ∷ 0x2e ∷ 0x51 ∷ 0xcb ∷ 0x9a ∷ 0x1d ∷ []

abbrev pub event_header_size : ℕ
event_header_size = 9

-- `PROGRAM_EVENT_TYPES`
pub data EventType : Type 0 where
  subscription_created subscription_cancelled subscription_transfer fixed_transfer : EventType
  recurring_transfer subscription_resumed plan_updated : EventType

pub record SubscriptionCreatedEvent : Type 0 where
  pub plan : String
  pub subscriber : String
  pub mint : String
  pub created_ts : ℤ
  pub payer : String

pub record SubscriptionCancelledEvent : Type 0 where
  pub plan : String
  pub subscriber : String
  pub expires_at_ts : ℤ

pub record SubscriptionTransferEvent : Type 0 where
  pub subscription : String
  pub plan : String
  pub delegator : String
  pub mint : String
  pub amount : ℕ
  pub period_start_ts : ℤ
  pub period_end_ts : ℤ
  pub amount_pulled_in_period : ℕ
  pub receiver : String
  pub receiver_token_account : String
  pub puller : String

pub record FixedTransferEvent : Type 0 where
  pub delegation : String
  pub delegator : String
  pub delegatee : String
  pub mint : String
  pub amount : ℕ
  pub remaining_amount : ℕ
  pub receiver : String
  pub receiver_token_account : String

pub record RecurringTransferEvent : Type 0 where
  pub delegation : String
  pub delegator : String
  pub delegatee : String
  pub mint : String
  pub amount : ℕ
  pub period_start_ts : ℤ
  pub period_end_ts : ℤ
  pub amount_pulled_in_period : ℕ
  pub receiver : String
  pub receiver_token_account : String

pub record SubscriptionResumedEvent : Type 0 where
  pub plan : String
  pub subscriber : String
  pub resumed_ts : ℤ

pub record PlanUpdatedEvent : Type 0 where
  pub plan : String
  pub owner : String
  pub status : ℕ
  pub end_ts : ℤ
  pub pullers : List String

pub data ProgramEvent : Type 0 where
  created : SubscriptionCreatedEvent → ProgramEvent
  cancelled : SubscriptionCancelledEvent → ProgramEvent
  subscription_charged : SubscriptionTransferEvent → ProgramEvent
  fixed_charged : FixedTransferEvent → ProgramEvent
  recurring_charged : RecurringTransferEvent → ProgramEvent
  resumed : SubscriptionResumedEvent → ProgramEvent
  updated : PlanUpdatedEvent → ProgramEvent

pub record Codec (A : Type 0) : Type 0 where
  pub fixed_size : ℕ
  pub encode : A → List ℕ
  pub decode : List ℕ → A

-- A codec of each type's payload.
pub record EventCodecs : Type 0 where
  pub created_codec : Codec SubscriptionCreatedEvent
  pub cancelled_codec : Codec SubscriptionCancelledEvent
  pub subscription_codec : Codec SubscriptionTransferEvent
  pub fixed_codec : Codec FixedTransferEvent
  pub recurring_codec : Codec RecurringTransferEvent
  pub resumed_codec : Codec SubscriptionResumedEvent
  pub updated_codec : Codec PlanUpdatedEvent

-- `PROGRAM_EVENT_TYPES[discriminator]`
unfoldable pub type_at : ℕ → Option EventType
type_at d =
    if d == 0
    then some subscription_created
    else if d == 1
    then some subscription_cancelled
    else if d == 2
    then some subscription_transfer
    else if d == 3
    then some fixed_transfer
    else if d == 4
    then some recurring_transfer
    else if d == 5
    then some subscription_resumed
    else if d == 6
    then some plan_updated
    else none

abbrev pub type_of : ProgramEvent → EventType
type_of (created e) = subscription_created
type_of (cancelled e) = subscription_cancelled
type_of (subscription_charged e) = subscription_transfer
type_of (fixed_charged e) = fixed_transfer
type_of (recurring_charged e) = recurring_transfer
type_of (resumed e) = subscription_resumed
type_of (updated e) = plan_updated

-- `PROGRAM_EVENT_TYPES.indexOf(type)`
abbrev pub index_of : EventType → ℕ
index_of subscription_created = 0
index_of subscription_cancelled = 1
index_of subscription_transfer = 2
index_of fixed_transfer = 3
index_of recurring_transfer = 4
index_of subscription_resumed = 5
index_of plan_updated = 6

pub data UnreadableEvent : Type 0 where
  unknown_type : ℕ → UnreadableEvent
  length_differs : EventType → ℕ → ℕ → UnreadableEvent

pub data EventReadResult : Type 0 where
  event : ProgramEvent → EventReadResult
  not_an_event : EventReadResult
  unreadable : UnreadableEvent → EventReadResult

-- `EVENT_TAG.every((byte, i) => data[i] === byte)`
unfoldable pub has_prefix : List ℕ → List ℕ → Bool
has_prefix [] bytes = true
has_prefix (t ∷ tag) [] = false
has_prefix (t ∷ tag) (b ∷ bytes) = (b == t) && has_prefix tag bytes

unfoldable pub starts_with_tag : List ℕ → Bool
starts_with_tag bytes =
    if ltb (length bytes) event_header_size then false else has_prefix event_tag bytes

module _ (kit : EventCodecs) where
  -- `PROGRAM_EVENT_SIZES`
  abbrev pub event_size : EventType → ℕ
  event_size subscription_created = kit.created_codec.fixed_size
  event_size subscription_cancelled = kit.cancelled_codec.fixed_size
  event_size subscription_transfer = kit.subscription_codec.fixed_size
  event_size fixed_transfer = kit.fixed_codec.fixed_size
  event_size recurring_transfer = kit.recurring_codec.fixed_size
  event_size subscription_resumed = kit.resumed_codec.fixed_size
  event_size plan_updated = kit.updated_codec.fixed_size

  unfoldable pub decode_payload : EventType → List ℕ → ProgramEvent
  decode_payload subscription_created payload = created (kit.created_codec.decode payload)
  decode_payload subscription_cancelled payload = cancelled (kit.cancelled_codec.decode payload)
  decode_payload subscription_transfer payload =
      subscription_charged (kit.subscription_codec.decode payload)
  decode_payload fixed_transfer payload = fixed_charged (kit.fixed_codec.decode payload)
  decode_payload recurring_transfer payload = recurring_charged (kit.recurring_codec.decode payload)
  decode_payload subscription_resumed payload = resumed (kit.resumed_codec.decode payload)
  decode_payload plan_updated payload = updated (kit.updated_codec.decode payload)

  unfoldable pub encode_payload : ProgramEvent → List ℕ
  encode_payload (created e) = kit.created_codec.encode e
  encode_payload (cancelled e) = kit.cancelled_codec.encode e
  encode_payload (subscription_charged e) = kit.subscription_codec.encode e
  encode_payload (fixed_charged e) = kit.fixed_codec.encode e
  encode_payload (recurring_charged e) = kit.recurring_codec.encode e
  encode_payload (resumed e) = kit.resumed_codec.encode e
  encode_payload (updated e) = kit.updated_codec.encode e

  unfoldable pub read_payload : Option EventType → ℕ → List ℕ → EventReadResult
  read_payload none discriminator payload = unreadable (unknown_type discriminator)
  read_payload (some type) discriminator payload =
      if not (length payload == event_size type)
      then unreadable (length_differs type (event_size type) (length payload))
      else event (decode_payload type payload)

  -- The byte after the tag and what follows it; the header's length is checked before.
  unfoldable pub read_after : List ℕ → EventReadResult
  read_after [] = not_an_event
  read_after (discriminator ∷ payload) = read_payload (type_at discriminator) discriminator payload

  unfoldable pub read_program_event : List ℕ → EventReadResult
  read_program_event bytes =
      if not (starts_with_tag bytes) then not_an_event else read_after (drop 8 bytes)

  unfoldable pub encode_program_event : ProgramEvent → List ℕ
  encode_program_event e = event_tag ++ (index_of (type_of e) ∷ encode_payload e)
