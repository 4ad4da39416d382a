-- ===== src/Chain/Subscribe/Bounds.antt =====
-- packages/chain/src/subscribe.ts: readSubscribeBounds, what a list of instructions agrees to, and
-- the transaction that is compiled from them.
use cancel_chain.Common.{
  ℕ, String, Bool, true, false, not, Option, none, some, List, [], ◌∷◌, ◌==◌, str_eq, if◌then◌else◌,
  is_some, Result, ok, throw, throw_if, ◌>>=◌, ◌>>◌,
}
use cancel_chain.Shared.Event.{differ}
use cancel_chain.Chain.Decode.{DecodeError, timestamp_from_chain, period_seconds_from_chain_hours}
use cancel_chain.Chain.Instructions.{
  SubscriptionsSdk, SubscriptionsInstruction, init_subscription_authority, subscribe, other,
  ParsedSubscribe, TransactionMessage,
}
use cancel_chain.Chain.Grant.{AuthorityInitId, known, same_transaction}
use cancel_chain.Chain.Subscribe.{
  SubscribeError, SubscribeTerms, foreign_program, no_accounts_or_data, unreadable,
  initialised_twice, unexpected_instruction, no_subscribe, init_disagrees, no_creation_time,
  of_decode,
}

pub record SubscribeBounds : Type 0 where
  pub plan : String
  pub merchant : String
  pub subscriber : String
  pub subscription : String
  pub plan_id : ℕ
  pub terms : SubscribeTerms
  pub authority_init_id : AuthorityInitId
  pub inits_authority : Bool

-- `initsAuthority` and `subscribe` of the loop.
pub record Seen : Type 0 where
  pub inits : Bool
  pub parsed : Option ParsedSubscribe

abbrev pub parsed_of : Option ParsedSubscribe → Result SubscribeError ParsedSubscribe
parsed_of none = throw unreadable
parsed_of (some p) = ok p

abbrev pub identified :
    Option SubscriptionsInstruction → Result SubscribeError SubscriptionsInstruction
identified none = throw unreadable
identified (some kind) = ok kind

abbrev pub bounds_of : Bool → ParsedSubscribe → SubscribeBounds
bounds_of inits p = record {
  plan = p.plan_pda;
  merchant = p.merchant;
  subscriber = p.subscriber;
  subscription = p.subscription_pda;
  plan_id = p.plan_id;
  terms = record {
    mint = p.expected_mint;
    amount = p.expected_amount;
    period_hours = p.expected_period_hours;
    created_at = p.expected_created_at;
  };
  authority_init_id = if inits then same_transaction else known p.expected_init_id;
  inits_authority = inits;
}

module _ {I : Type 0} (sdk : SubscriptionsSdk I) where
  -- One turn of the loop, once the instruction is known.
  unfoldable pub see : Seen → I → SubscriptionsInstruction → Result SubscribeError Seen
  see seen i init_subscription_authority =
      if is_some seen.parsed
      then throw unexpected_instruction
      else if seen.inits
      then throw initialised_twice
      else ok (record { inits = true; parsed = none })
  see seen i subscribe =
      if is_some seen.parsed
      then throw unexpected_instruction
      else parsed_of (sdk.parse_subscribe i)
        >>= (λ p. ok (record { inits = seen.inits; parsed = some p }))
  see seen i (other kind) = throw unexpected_instruction

  unfoldable pub see_one : String → Seen → I → Result SubscribeError Seen
  see_one program seen i = do
    throw_if (not (str_eq (sdk.program_of i) program)) foreign_program
    throw_if (not (sdk.has_accounts_and_data i)) no_accounts_or_data
    kind ← identified (sdk.identify i)
    see seen i kind

  unfoldable pub see_all : String → Seen → List I → Result SubscribeError Seen
  see_all program seen [] = ok seen
  see_all program seen (i ∷ is) = see_one program seen i >>= (λ next. see_all program next is)

  unfoldable pub conclude : Bool → Option ParsedSubscribe → Result SubscribeError SubscribeBounds
  conclude inits none = throw no_subscribe
  conclude inits (some p) =
      if differ inits (p.expected_init_id == sdk.unknown_init_id)
      then throw init_disagrees
      else ok (bounds_of inits p)

  unfoldable pub read_subscribe_bounds : List I → String → Result SubscribeError SubscribeBounds
  read_subscribe_bounds is program = do
    seen ← see_all program (record { inits = false; parsed = none }) is
    conclude seen.inits seen.parsed

  -- `buildSubscribeTransaction`: the subscriber pays.
  unfoldable pub build_subscribe_transaction :
      List I → String → String → Result SubscribeError (SubscribeBounds × TransactionMessage I)
  build_subscribe_transaction is lifetime program = do
    bounds ← read_subscribe_bounds is program
    ok (bounds, record { fee_payer = bounds.subscriber; lifetime = lifetime; instructions = is })

-- The terms as `planTermsDivergence` compares them; `amount` and `created_at` stand for their text.
pub record BoundsTerms : Type 0 where
  pub mint : String
  pub amount : ℕ
  pub period_seconds : ℕ
  pub created_at : ℕ

abbrev pub lift_decode : {A : Type 0} → Result DecodeError A → Result SubscribeError A
lift_decode (ok a) = ok a
lift_decode (throw e) = throw (of_decode e)

abbrev pub pinned : Option ℕ → Result SubscribeError ℕ
pinned none = throw no_creation_time
pinned (some at) = ok at

unfoldable pub subscribe_bounds_as_plan_terms : SubscribeTerms → Result SubscribeError BoundsTerms
subscribe_bounds_as_plan_terms terms = do
  moment ← lift_decode (timestamp_from_chain terms.created_at)
  created ← pinned moment
  seconds ← lift_decode (period_seconds_from_chain_hours terms.period_hours)
  ok (record {
    mint = terms.mint;
    amount = terms.amount;
    period_seconds = seconds;
    created_at = created;
  })
