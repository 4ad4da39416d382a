-- ===== src/Chain/Events/Trip.antt =====
-- packages/chain/src/events.ts: writing an event and reading it.
use cancel_chain.Common.{
  ℕ, ◌≡◌, refl, ap, ◌∙◌, true, false, Option, none, some, List, [], ◌∷◌, ◌++◌, arith, drop, length,
  Bool-cases, inl, inr, ltb,
}
use cancel_chain.Chain.Events.{
  event_tag, ProgramEvent, created, cancelled, subscription_charged, fixed_charged,
  recurring_charged, resumed, updated, EventType, Codec, EventCodecs, type_at, type_of, index_of,
  event, has_prefix, starts_with_tag, event_size, decode_payload, encode_payload, read_payload,
  read_after, read_program_event, encode_program_event,
}

-- What a codec of the kit promises of a value in its range: the value comes back, and its bytes have
-- the fixed size.
pub record IsKept {A : Type 0} (c : Codec A) (a : A) : Type 0 where
  pub round_trip : c.decode (c.encode a) ≡ a
  pub sized : length (c.encode a) ≡ c.fixed_size

abbrev pub KeepsEvent : EventCodecs → ProgramEvent → Type 0
KeepsEvent kit (created e) = IsKept kit.created_codec e
KeepsEvent kit (cancelled e) = IsKept kit.cancelled_codec e
KeepsEvent kit (subscription_charged e) = IsKept kit.subscription_codec e
KeepsEvent kit (fixed_charged e) = IsKept kit.fixed_codec e
KeepsEvent kit (recurring_charged e) = IsKept kit.recurring_codec e
KeepsEvent kit (resumed e) = IsKept kit.resumed_codec e
KeepsEvent kit (updated e) = IsKept kit.updated_codec e

module _ (kit : EventCodecs) where
  payload-sized :
      (e : ProgramEvent)
      → KeepsEvent kit e
      → length (encode_payload kit e) ≡ event_size kit (type_of e)
  unfolding encode_payload
  payload-sized (created e) ok = ok.sized
  payload-sized (cancelled e) ok = ok.sized
  payload-sized (subscription_charged e) ok = ok.sized
  payload-sized (fixed_charged e) ok = ok.sized
  payload-sized (recurring_charged e) ok = ok.sized
  payload-sized (resumed e) ok = ok.sized
  payload-sized (updated e) ok = ok.sized

  payload-trip :
      (e : ProgramEvent)
      → KeepsEvent kit e
      → decode_payload kit (type_of e) (encode_payload kit e) ≡ e
  unfolding encode_payload decode_payload
  payload-trip (created e) ok = ap created ok.round_trip
  payload-trip (cancelled e) ok = ap cancelled ok.round_trip
  payload-trip (subscription_charged e) ok = ap subscription_charged ok.round_trip
  payload-trip (fixed_charged e) ok = ap fixed_charged ok.round_trip
  payload-trip (recurring_charged e) ok = ap recurring_charged ok.round_trip
  payload-trip (resumed e) ok = ap resumed ok.round_trip
  payload-trip (updated e) ok = ap updated ok.round_trip

  type_at-index_of : (t : EventType) → type_at (index_of t) ≡ some t
  unfolding type_at
  type_at-index_of t = ground arith

  -- An event whose payload its codec keeps reads back, once encoded, as itself.
  pub read-encode :
      (e : ProgramEvent)
      → KeepsEvent kit e
      → read_program_event kit (encode_program_event kit e) ≡ event e
  unfolding read_program_event encode_program_event starts_with_tag has_prefix read_after
      read_payload
  read-encode e ok =
      let long : ltb (length (encode_program_event kit e)) 9 ≡ false = ground arith in
      rw (long, type_at-index_of (type_of e), payload-sized e ok, payload-trip e ok) (ground arith)

  decode-type : (t : EventType) (payload : List ℕ) → type_of (decode_payload kit t payload) ≡ t
  unfolding decode_payload
  decode-type t payload = ground arith

  prefix_lem :
      (tag bytes : List ℕ) → has_prefix tag bytes ≡ true → bytes ≡ tag ++ drop (length tag) bytes
  unfolding has_prefix
  prefix_lem [] bytes h = refl
  prefix_lem (t ∷ tag) [] h = absurd (ground arith)
  prefix_lem (t ∷ tag) (b ∷ bytes) h = ground (arith, prefix_lem tag bytes)

  type_at_lem : (d : ℕ) (t : EventType) → type_at d ≡ some t → d ≡ index_of t
  unfolding type_at
  type_at_lem d t h = ground arith

  -- The bytes after the tag.
  abbrev Follows : List ℕ → ProgramEvent → Type 0
  Follows bytes e =
      (payload : List ℕ) × (bytes ≡ index_of (type_of e) ∷ payload)
      × (length payload ≡ event_size kit (type_of e))
      × (e ≡ decode_payload kit (type_of e) payload)

  payload-IsEvent :
      (o : Option EventType) (d : ℕ) (payload : List ℕ) (e : ProgramEvent)
      → type_at d ≡ o
      → read_payload kit o d payload ≡ event e
      → Follows (d ∷ payload) e
  unfolding read_payload
  payload-IsEvent none d payload e at h = absurd (ground arith)
  payload-IsEvent (some t) d payload e at h =
      let is : e ≡ decode_payload kit t payload = ground arith in
      let type : type_of e ≡ t = ap type_of is ∙ decode-type t payload in
      let index = type_at_lem d t at in
      (payload, ground (arith, index, type), ground (arith, type, h), rw type is)

  after-IsEvent :
      (rest : List ℕ) (e : ProgramEvent) → read_after kit rest ≡ event e → Follows rest e
  unfolding read_after
  after-IsEvent [] e h = absurd (ground arith)
  after-IsEvent (d ∷ payload) e h = payload-IsEvent (type_at d) d payload e refl h

  -- What is read as an event are the tag, the byte of the event's type and a payload of exactly
  -- that type's size, decoded as that type.
  pub read-IsEvent :
      (bytes : List ℕ) (e : ProgramEvent)
      → read_program_event kit bytes ≡ event e
      → (payload : List ℕ) × (bytes ≡ event_tag ++ (index_of (type_of e) ∷ payload))
        × (length payload ≡ event_size kit (type_of e))
        × (e ≡ decode_payload kit (type_of e) payload)
  unfolding read_program_event starts_with_tag
  read-IsEvent bytes e h = elim (Bool-cases (starts_with_tag bytes)) [
    | inl tagged ↦
        let prefix : has_prefix event_tag bytes ≡ true = ground (arith, tagged) in
        let (payload, rest, sized, is) = after-IsEvent (drop 8 bytes) e (rw tagged at h) in
        (payload, prefix_lem event_tag bytes prefix ∙ ap (λ r. event_tag ++ r) rest, sized, is)
    | inr other ↦ absurd (ground (arith, h, other))
  ]
