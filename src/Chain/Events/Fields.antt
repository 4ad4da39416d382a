-- ===== src/Chain/Events/Fields.antt =====
-- packages/chain/src/events.ts: an event in its layout, written and read.
use cancel_chain.Common.{ℕ, ◌≡◌, refl, ap, ◌∙◌, List, length, All}
use cancel_chain.Chain.Events.{
  ProgramEvent, created, cancelled, subscription_charged, fixed_charged, recurring_charged, resumed,
  updated, Codec, event, read_program_event, encode_program_event,
}
use cancel_chain.Chain.Events.Trip.{IsKept, KeepsEvent, read-encode}
use cancel_chain.Chain.Events.Layouts.{
  Kit, by_fields, layouts, by_fields, created_fields, created_of, cancelled_fields, cancelled_of,
  subscription_charged_fields, subscription_charged_of, fixed_charged_fields, fixed_charged_of,
  recurring_charged_fields, recurring_charged_of, resumed_fields, resumed_of, updated_fields,
  updated_of, created_layout, cancelled_layout, subscription_charged_layout, fixed_charged_layout,
  recurring_charged_layout, resumed_layout, updated_layout,
}

-- What a codec keeps, two in a row keep, and an array of its length.
pub record IsKit (kit : Kit) : Type 1 where
  pub pair_keeps :
      {A B : Type 0} (a : Codec A) (b : Codec B) (x : A) (y : B)
      → IsKept a x
      → IsKept b y
      → IsKept (kit.pair a b) (x, y)
  pub repeat_keeps :
      {A : Type 0} (n : ℕ) (a : Codec A) (xs : List A)
      → length xs ≡ n
      → All (IsKept a) xs
      → IsKept (kit.repeat n a) xs

by_fields_keeps :
    {A B : Type 0} (fields : B → A) (make : A → B) (c : Codec A) (b : B)
    → make (fields b) ≡ b
    → IsKept c (fields b)
    → IsKept (by_fields fields make c) b
by_fields_keeps fields make c b same kept = record {
  round_trip = ap make kept.round_trip ∙ same;
  sized = kept.sized;
}

module _ (kit : Kit) where
  -- Every field of the event is one that the field's codec keeps; a plan has four pullers.
  abbrev pub KeepsFields : ProgramEvent → Type 0
  KeepsFields (created e) =
      IsKept kit.address e.plan
      × IsKept kit.address e.subscriber
      × IsKept kit.address e.mint
      × IsKept kit.i64 e.created_ts
      × IsKept kit.address e.payer
  KeepsFields (cancelled e) =
      IsKept kit.address e.plan × IsKept kit.address e.subscriber × IsKept kit.i64 e.expires_at_ts
  KeepsFields (subscription_charged e) =
      IsKept kit.address e.subscription
      × IsKept kit.address e.plan
      × IsKept kit.address e.delegator
      × IsKept kit.address e.mint
      × IsKept kit.u64 e.amount
      × IsKept kit.i64 e.period_start_ts
      × IsKept kit.i64 e.period_end_ts
      × IsKept kit.u64 e.amount_pulled_in_period
      × IsKept kit.address e.receiver
      × IsKept kit.address e.receiver_token_account
      × IsKept kit.address e.puller
  KeepsFields (fixed_charged e) =
      IsKept kit.address e.delegation
      × IsKept kit.address e.delegator
      × IsKept kit.address e.delegatee
      × IsKept kit.address e.mint
      × IsKept kit.u64 e.amount
      × IsKept kit.u64 e.remaining_amount
      × IsKept kit.address e.receiver
      × IsKept kit.address e.receiver_token_account
  KeepsFields (recurring_charged e) =
      IsKept kit.address e.delegation
      × IsKept kit.address e.delegator
      × IsKept kit.address e.delegatee
      × IsKept kit.address e.mint
      × IsKept kit.u64 e.amount
      × IsKept kit.i64 e.period_start_ts
      × IsKept kit.i64 e.period_end_ts
      × IsKept kit.u64 e.amount_pulled_in_period
      × IsKept kit.address e.receiver
      × IsKept kit.address e.receiver_token_account
  KeepsFields (resumed e) =
      IsKept kit.address e.plan × IsKept kit.address e.subscriber × IsKept kit.i64 e.resumed_ts
  KeepsFields (updated e) =
      IsKept kit.address e.plan
      × IsKept kit.address e.owner
      × IsKept kit.u8 e.status
      × IsKept kit.i64 e.end_ts
      × ((length e.pullers ≡ 4) × All (IsKept kit.address) e.pullers)

  module _ (is_kit : IsKit kit) where
    keeps_event : (e : ProgramEvent) → KeepsFields e → KeepsEvent (layouts kit) e
    keeps_event (created e) (h0, h1, h2, h3, h4) =
        by_fields_keeps created_fields created_of (created_layout kit) e refl (
          is_kit.pair_keeps _ _ e.plan _ h0 (
            is_kit.pair_keeps _ _ e.subscriber _ h1
              (is_kit.pair_keeps _ _ e.mint _ h2 (is_kit.pair_keeps _ _ e.created_ts _ h3 h4))))
    keeps_event (cancelled e) (h0, h1, h2) =
        by_fields_keeps cancelled_fields cancelled_of (cancelled_layout kit) e refl
          (is_kit.pair_keeps _ _ e.plan _ h0 (is_kit.pair_keeps _ _ e.subscriber _ h1 h2))
    keeps_event (subscription_charged e) (h0, h1, h2, h3, h4, h5, h6, h7, h8, h9, h10) =
        by_fields_keeps subscription_charged_fields subscription_charged_of
          (subscription_charged_layout kit) e refl
          (is_kit.pair_keeps _ _ e.subscription _ h0 (
            is_kit.pair_keeps _ _ e.plan _ h1 (
              is_kit.pair_keeps _ _ e.delegator _ h2 (
                is_kit.pair_keeps _ _ e.mint _ h3 (
                  is_kit.pair_keeps _ _ e.amount _ h4 (
                    is_kit.pair_keeps _ _ e.period_start_ts _ h5 (
                      is_kit.pair_keeps _ _ e.period_end_ts _ h6 (
                        is_kit.pair_keeps _ _ e.amount_pulled_in_period _ h7 (
                          is_kit.pair_keeps _ _ e.receiver _ h8
                            (is_kit.pair_keeps _ _ e.receiver_token_account _ h9 h10))))))))))
    keeps_event (fixed_charged e) (h0, h1, h2, h3, h4, h5, h6, h7) =
        by_fields_keeps fixed_charged_fields fixed_charged_of (fixed_charged_layout kit) e refl (
          is_kit.pair_keeps _ _ e.delegation _ h0 (
            is_kit.pair_keeps _ _ e.delegator _ h1 (
              is_kit.pair_keeps _ _ e.delegatee _ h2 (
                is_kit.pair_keeps _ _ e.mint _ h3 (
                  is_kit.pair_keeps _ _ e.amount _ h4 (
                    is_kit.pair_keeps _ _ e.remaining_amount _ h5
                      (is_kit.pair_keeps _ _ e.receiver _ h6 h7)))))))
    keeps_event (recurring_charged e) (h0, h1, h2, h3, h4, h5, h6, h7, h8, h9) =
        by_fields_keeps recurring_charged_fields recurring_charged_of (recurring_charged_layout kit)
          e refl
          (is_kit.pair_keeps _ _ e.delegation _ h0 (
            is_kit.pair_keeps _ _ e.delegator _ h1 (
              is_kit.pair_keeps _ _ e.delegatee _ h2 (
                is_kit.pair_keeps _ _ e.mint _ h3 (
                  is_kit.pair_keeps _ _ e.amount _ h4 (
                    is_kit.pair_keeps _ _ e.period_start_ts _ h5 (
                      is_kit.pair_keeps _ _ e.period_end_ts _ h6 (
                        is_kit.pair_keeps _ _ e.amount_pulled_in_period _ h7
                          (is_kit.pair_keeps _ _ e.receiver _ h8 h9)))))))))
    keeps_event (resumed e) (h0, h1, h2) =
        by_fields_keeps resumed_fields resumed_of (resumed_layout kit) e refl
          (is_kit.pair_keeps _ _ e.plan _ h0 (is_kit.pair_keeps _ _ e.subscriber _ h1 h2))
    keeps_event (updated e) (h0, h1, h2, h3, h4) =
        by_fields_keeps updated_fields updated_of (updated_layout kit) e refl (
          is_kit.pair_keeps _ _ e.plan _ h0 (
            is_kit.pair_keeps _ _ e.owner _ h1 (
              is_kit.pair_keeps _ _ e.status _ h2 (
                is_kit.pair_keeps _ _ e.end_ts _ h3
                  (is_kit.repeat_keeps 4 kit.address e.pullers h4.0 h4.1)))))

    -- Where two codecs in a row, and an array of one, keep what each of them keeps, an event of any of
    -- the seven types whose fields the codecs of single fields keep, with four pullers of a plan,
    -- reads back, once encoded, as itself: each payload is laid out and read in the same order of
    -- fields.
    pub read-layouts :
        (e : ProgramEvent)
        → KeepsFields e
        → read_program_event (layouts kit) (encode_program_event (layouts kit) e) ≡ event e
    read-layouts e h = read-encode (layouts kit) e (keeps_event e h)
