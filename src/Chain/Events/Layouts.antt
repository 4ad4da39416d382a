-- ===== src/Chain/Events/Layouts.antt =====
-- packages/chain/src/events.ts: CODECS, the layout of each event's payload. The codecs of single
-- fields, of two things in a row and of an array are @solana/kit's: parameters.
use cancel_chain.Common.{ℕ, String, List}
use cancel_chain.Common.Int.{ℤ}
use cancel_chain.Chain.Events.{
  SubscriptionCreatedEvent, SubscriptionCancelledEvent, SubscriptionTransferEvent,
  FixedTransferEvent, RecurringTransferEvent, SubscriptionResumedEvent, PlanUpdatedEvent, Codec,
  EventCodecs,
}

-- `getAddressCodec`, `getU64Codec`, `getI64Codec`, `getU8Codec` and `getArrayCodec`; a struct is one
-- field after the other.
pub record Kit : Type 1 where
  pub address : Codec String
  pub u64 : Codec ℕ
  pub i64 : Codec ℤ
  pub u8 : Codec ℕ
  pub pair : {A B : Type 0} → Codec A → Codec B → Codec (A × B)
  pub repeat : {A : Type 0} → ℕ → Codec A → Codec (List A)

-- A struct is read and written by its fields.
abbrev pub by_fields : {A B : Type 0} → (B → A) → (A → B) → Codec A → Codec B
by_fields fields make c = record {
  fixed_size = c.fixed_size;
  encode = λ b. c.encode (fields b);
  decode = λ bytes. make (c.decode bytes);
}

abbrev pub created_fields : SubscriptionCreatedEvent → String × (String × (String × (ℤ × String)))
created_fields e = (e.plan, (e.subscriber, (e.mint, (e.created_ts, e.payer))))

abbrev pub created_of : String × (String × (String × (ℤ × String))) → SubscriptionCreatedEvent
created_of (plan, (subscriber, (mint, (created_ts, payer)))) = record {
  plan = plan;
  subscriber = subscriber;
  mint = mint;
  created_ts = created_ts;
  payer = payer;
}

abbrev pub cancelled_fields : SubscriptionCancelledEvent → String × (String × ℤ)
cancelled_fields e = (e.plan, (e.subscriber, e.expires_at_ts))

abbrev pub cancelled_of : String × (String × ℤ) → SubscriptionCancelledEvent
cancelled_of (plan, (subscriber, expires_at_ts)) = record {
  plan = plan;
  subscriber = subscriber;
  expires_at_ts = expires_at_ts;
}

abbrev pub subscription_charged_fields :
    SubscriptionTransferEvent
    → String × (String × (String × (String × (ℕ × (ℤ × (ℤ × (ℕ × (String × (String × String)))))))))
subscription_charged_fields e = (
  e.subscription,
  (
    e.plan,
    (
      e.delegator,
      (
        e.mint,
        (
          e.amount,
          (
            e.period_start_ts,
            (
              e.period_end_ts,
              (e.amount_pulled_in_period, (e.receiver, (e.receiver_token_account, e.puller))),
            ),
          ),
        ),
      ),
    ),
  ),
)

abbrev pub subscription_charged_of :
    String × (String × (String × (String × (ℕ × (ℤ × (ℤ × (ℕ × (String × (String × String)))))))))
    → SubscriptionTransferEvent
subscription_charged_of
      (
        subscription,
        (
          plan,
          (
            delegator,
            (
              mint,
              (
                amount,
                (
                  period_start_ts,
                  (
                    period_end_ts,
                    (amount_pulled_in_period, (receiver, (receiver_token_account, puller))),
                  ),
                ),
              ),
            ),
          ),
        ),
      ) =
    record {
      subscription = subscription;
      plan = plan;
      delegator = delegator;
      mint = mint;
      amount = amount;
      period_start_ts = period_start_ts;
      period_end_ts = period_end_ts;
      amount_pulled_in_period = amount_pulled_in_period;
      receiver = receiver;
      receiver_token_account = receiver_token_account;
      puller = puller;
    }

abbrev pub fixed_charged_fields :
    FixedTransferEvent → String × (String × (String × (String × (ℕ × (ℕ × (String × String))))))
fixed_charged_fields e = (
  e.delegation,
  (
    e.delegator,
    (
      e.delegatee,
      (e.mint, (e.amount, (e.remaining_amount, (e.receiver, e.receiver_token_account)))),
    ),
  ),
)

abbrev pub fixed_charged_of :
    String × (String × (String × (String × (ℕ × (ℕ × (String × String)))))) → FixedTransferEvent
fixed_charged_of
      (
        delegation,
        (
          delegator,
          (delegatee, (mint, (amount, (remaining_amount, (receiver, receiver_token_account))))),
        ),
      ) =
    record {
      delegation = delegation;
      delegator = delegator;
      delegatee = delegatee;
      mint = mint;
      amount = amount;
      remaining_amount = remaining_amount;
      receiver = receiver;
      receiver_token_account = receiver_token_account;
    }

abbrev pub recurring_charged_fields :
    RecurringTransferEvent
    → String × (String × (String × (String × (ℕ × (ℤ × (ℤ × (ℕ × (String × String))))))))
recurring_charged_fields e = (
  e.delegation,
  (
    e.delegator,
    (
      e.delegatee,
      (
        e.mint,
        (
          e.amount,
          (
            e.period_start_ts,
            (e.period_end_ts, (e.amount_pulled_in_period, (e.receiver, e.receiver_token_account))),
          ),
        ),
      ),
    ),
  ),
)

abbrev pub recurring_charged_of :
    String × (String × (String × (String × (ℕ × (ℤ × (ℤ × (ℕ × (String × String))))))))
    → RecurringTransferEvent
recurring_charged_of
      (
        delegation,
        (
          delegator,
          (
            delegatee,
            (
              mint,
              (
                amount,
                (
                  period_start_ts,
                  (period_end_ts, (amount_pulled_in_period, (receiver, receiver_token_account))),
                ),
              ),
            ),
          ),
        ),
      ) =
    record {
      delegation = delegation;
      delegator = delegator;
      delegatee = delegatee;
      mint = mint;
      amount = amount;
      period_start_ts = period_start_ts;
      period_end_ts = period_end_ts;
      amount_pulled_in_period = amount_pulled_in_period;
      receiver = receiver;
      receiver_token_account = receiver_token_account;
    }

abbrev pub resumed_fields : SubscriptionResumedEvent → String × (String × ℤ)
resumed_fields e = (e.plan, (e.subscriber, e.resumed_ts))

abbrev pub resumed_of : String × (String × ℤ) → SubscriptionResumedEvent
resumed_of (plan, (subscriber, resumed_ts)) = record {
  plan = plan;
  subscriber = subscriber;
  resumed_ts = resumed_ts;
}

abbrev pub updated_fields : PlanUpdatedEvent → String × (String × (ℕ × (ℤ × List String)))
updated_fields e = (e.plan, (e.owner, (e.status, (e.end_ts, e.pullers))))

abbrev pub updated_of : String × (String × (ℕ × (ℤ × List String))) → PlanUpdatedEvent
updated_of (plan, (owner, (status, (end_ts, pullers)))) = record {
  plan = plan;
  owner = owner;
  status = status;
  end_ts = end_ts;
  pullers = pullers;
}

module _ (kit : Kit) where
  abbrev pub created_layout : Codec (String × (String × (String × (ℤ × String))))
  created_layout =
      kit.pair kit.address
        (kit.pair kit.address (kit.pair kit.address (kit.pair kit.i64 kit.address)))

  abbrev pub cancelled_layout : Codec (String × (String × ℤ))
  cancelled_layout = kit.pair kit.address (kit.pair kit.address kit.i64)

  abbrev pub subscription_charged_layout : Codec (
      String
      × (String × (String × (String × (ℕ × (ℤ × (ℤ × (ℕ × (String × (String × String))))))))))
  subscription_charged_layout = kit.pair kit.address (
      kit.pair kit.address (
        kit.pair kit.address (
          kit.pair kit.address (
            kit.pair kit.u64 (
              kit.pair kit.i64 (
                kit.pair kit.i64
                  (kit.pair kit.u64 (kit.pair kit.address (kit.pair kit.address kit.address)))))))))

  abbrev pub fixed_charged_layout :
      Codec (String × (String × (String × (String × (ℕ × (ℕ × (String × String)))))))
  fixed_charged_layout = kit.pair kit.address (
      kit.pair kit.address (
        kit.pair kit.address (
          kit.pair kit.address
            (kit.pair kit.u64 (kit.pair kit.u64 (kit.pair kit.address kit.address))))))

  abbrev pub recurring_charged_layout :
      Codec (String × (String × (String × (String × (ℕ × (ℤ × (ℤ × (ℕ × (String × String)))))))))
  recurring_charged_layout = kit.pair kit.address (
      kit.pair kit.address (
        kit.pair kit.address (
          kit.pair kit.address (
            kit.pair kit.u64 (
              kit.pair kit.i64
                (kit.pair kit.i64 (kit.pair kit.u64 (kit.pair kit.address kit.address))))))))

  abbrev pub resumed_layout : Codec (String × (String × ℤ))
  resumed_layout = kit.pair kit.address (kit.pair kit.address kit.i64)

  abbrev pub updated_layout : Codec (String × (String × (ℕ × (ℤ × List String))))
  updated_layout =
      kit.pair kit.address
        (kit.pair kit.address (kit.pair kit.u8 (kit.pair kit.i64 (kit.repeat 4 kit.address))))

  -- `CODECS`
  abbrev pub layouts : EventCodecs
  layouts = record {
    created_codec = by_fields created_fields created_of created_layout;
    cancelled_codec = by_fields cancelled_fields cancelled_of cancelled_layout;
    subscription_codec =
        by_fields subscription_charged_fields subscription_charged_of subscription_charged_layout;
    fixed_codec = by_fields fixed_charged_fields fixed_charged_of fixed_charged_layout;
    recurring_codec =
        by_fields recurring_charged_fields recurring_charged_of recurring_charged_layout;
    resumed_codec = by_fields resumed_fields resumed_of resumed_layout;
    updated_codec = by_fields updated_fields updated_of updated_layout;
  }
