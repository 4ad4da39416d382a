-- ===== src/Chain/Tests/Eventful.antt =====
-- An event written and read back.
use cancel_chain.Common.{ℕ, ◌≡◌, refl, List, [], ◌∷◌, ◌++◌}
use cancel_chain.Common.Int.{pos}
use cancel_chain.Chain.Events.{
  SubscriptionCancelledEvent, cancelled, Codec, EventCodecs, event_tag, event, decode_payload,
  has_prefix, starts_with_tag, type_at, read_payload, read_after, read_program_event,
}

abbrev cancellation : SubscriptionCancelledEvent
cancellation = record { plan = "plan"; subscriber = "wallet"; expires_at_ts = pos 1_790_000_000 }

-- A codec that knows one value only.
abbrev only : {A : Type 0} → A → Codec A
only a = record { fixed_size = 2; encode = λ x. 1 ∷ 2 ∷ []; decode = λ b. a }

abbrev pub kit : EventCodecs
kit = record {
  created_codec = only (record {
    plan = "plan";
    subscriber = "wallet";
    mint = "usdc";
    created_ts = pos 0;
    payer = "wallet";
  });
  cancelled_codec = only cancellation;
  subscription_codec = only (record {
    subscription = "permission";
    plan = "plan";
    delegator = "wallet";
    mint = "usdc";
    amount = 1;
    period_start_ts = pos 0;
    period_end_ts = pos 1;
    amount_pulled_in_period = 1;
    receiver = "merchant";
    receiver_token_account = "account";
    puller = "merchant";
  });
  fixed_codec = only (record {
    delegation = "permission";
    delegator = "wallet";
    delegatee = "merchant";
    mint = "usdc";
    amount = 1;
    remaining_amount = 0;
    receiver = "merchant";
    receiver_token_account = "account";
  });
  recurring_codec = only (record {
    delegation = "permission";
    delegator = "wallet";
    delegatee = "merchant";
    mint = "usdc";
    amount = 1;
    period_start_ts = pos 0;
    period_end_ts = pos 1;
    amount_pulled_in_period = 1;
    receiver = "merchant";
    receiver_token_account = "account";
  });
  resumed_codec = only (record { plan = "plan"; subscriber = "wallet"; resumed_ts = pos 0 });
  updated_codec =
      only (record { plan = "plan"; owner = "merchant"; status = 0; end_ts = pos 0; pullers = [] });
}

abbrev written : List ℕ
written = event_tag ++ (1 ∷ (1 ∷ (2 ∷ [])))

read_back : read_program_event kit written ≡ event (cancelled cancellation)
unfolding read_program_event starts_with_tag has_prefix read_after read_payload type_at
    decode_payload
read_back = refl
