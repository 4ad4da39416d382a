-- ===== src/Chain/Subscribe/Trip.antt =====
-- packages/chain/src/subscribe.ts: what is read back from the instructions that were built.
use cancel_chain.Common.{
  ℕ, ◌≡◌, ◌≢◌, refl, subst, String, Bool, true, false, Option, none, some, List, [], ◌∷◌, arith,
  eq_iff, ==_iff, succeeds, is_some, or_else, ok,
}
use cancel_chain.Chain.Instructions.{
  SubscriptionsSdk, init_subscription_authority, subscribe, SubscribeArgs, InitArgs,
  ParsedSubscribe,
}
use cancel_chain.Chain.Grant.{
  known, same_transaction, init_id_for, InitAuthority, init_instructions,
  build_init_authority_instruction,
}
use cancel_chain.Chain.Grant.Bundle.{known_of, same_of}
use cancel_chain.Chain.Subscribe.{
  SubscribeInput, SubscribeTerms, subscribe_terms_from, assert_subscribable, find_plan,
  build_subscribe_instruction, build_subscribe_instructions,
}
use cancel_chain.Chain.Subscribe.Bounds.{
  SubscribeBounds, see, see_one, see_all, conclude, bounds_of, read_subscribe_bounds,
}

module _ {I : Type 0} (sdk : SubscriptionsSdk I) where
  abbrev pub parsed_back : SubscribeArgs → ParsedSubscribe
  parsed_back a = record {
    plan_pda = sdk.find_plan_pda a.merchant a.plan_id;
    merchant = a.merchant;
    subscriber = a.subscriber;
    subscription_pda =
        sdk.find_subscription_pda (sdk.find_plan_pda a.merchant a.plan_id) a.subscriber;
    plan_id = a.plan_id;
    expected_mint = a.token_mint;
    expected_amount = a.expected_amount;
    expected_period_hours = a.expected_period_hours;
    expected_created_at = a.expected_created_at;
    expected_init_id = a.expected_init_id;
  }

  -- The SDK's parser reads what its builders write.
  pub record ReadsBack : Type 0 where
    pub subscribe_program :
        (a : SubscribeArgs) → sdk.program_of (sdk.subscribe_ix a) ≡ a.program_address
    pub subscribe_full : (a : SubscribeArgs) → sdk.has_accounts_and_data (sdk.subscribe_ix a) ≡ true
    pub subscribe_kind : (a : SubscribeArgs) → sdk.identify (sdk.subscribe_ix a) ≡ some subscribe
    pub subscribe_parsed :
        (a : SubscribeArgs) → sdk.parse_subscribe (sdk.subscribe_ix a) ≡ some (parsed_back a)
    pub init_program : (a : InitArgs) → sdk.program_of (sdk.init_authority a) ≡ a.program_address
    pub init_full : (a : InitArgs) → sdk.has_accounts_and_data (sdk.init_authority a) ≡ true
    pub init_kind :
        (a : InitArgs) → sdk.identify (sdk.init_authority a) ≡ some init_subscription_authority

  module _ (reads : ReadsBack) (input : SubscribeInput) where
    abbrev program : String
    program = or_else input.program_address sdk.default_program

    abbrev args : SubscribeTerms → SubscribeArgs
    args terms = record {
      merchant = input.plan.owner;
      plan_id = input.plan.plan_id;
      subscriber = input.subscriber;
      token_mint = terms.mint;
      expected_amount = terms.amount;
      expected_period_hours = terms.period_hours;
      expected_created_at = terms.created_at;
      expected_init_id = init_id_for sdk input.authority_init_id;
      program_address = program;
      payer = input.payer;
    }

    see_init :
        (a : InitArgs)
        → a.program_address ≡ program
        → see_one sdk program (record { inits = false; parsed = none }) (sdk.init_authority a)
          ≡ ok (record { inits = true; parsed = none })
    unfolding see_one see
    see_init a same = ground (
      arith,
      eq_iff (sdk.program_of (sdk.init_authority a)) program,
      reads.init_program a,
      reads.init_full a,
      reads.init_kind a,
    )

    see_subscribe :
        (inits : Bool) (terms : SubscribeTerms)
        → see_one sdk program
            (record { inits = inits; parsed = none })
            (sdk.subscribe_ix (args terms))
          ≡ ok (record { inits = inits; parsed = some (parsed_back (args terms)) })
    unfolding see_one see
    see_subscribe inits terms = ground (
      arith,
      eq_iff (sdk.program_of (sdk.subscribe_ix (args terms))) program,
      reads.subscribe_program (args terms),
      reads.subscribe_full (args terms),
      reads.subscribe_kind (args terms),
      reads.subscribe_parsed (args terms),
    )

    abbrev Built : I → Type 0
    Built i =
        (terms : SubscribeTerms) × (subscribe_terms_from input.plan ≡ ok terms)
        × (i ≡ sdk.subscribe_ix (args terms))
        × (sdk.find_plan_pda input.plan.owner input.plan.plan_id ≡ input.plan.pda)

    plan_address :
        assert_subscribable sdk input.plan input.now ≡ ok tt
        → sdk.find_plan_pda input.plan.owner input.plan.plan_id ≡ input.plan.pda
    unfolding assert_subscribable find_plan
    plan_address h =
        ground
          (arith, eq_iff (sdk.find_plan_pda input.plan.owner input.plan.plan_id) input.plan.pda)

    built : (i : I) → build_subscribe_instruction sdk input ≡ ok i → Built i
    unfolding build_subscribe_instruction
    built i h =
        let (passed, takes) =
          succeeds (assert_subscribable sdk input.plan input.now) (λ e fails. ground arith) in
        let (terms, found) =
          succeeds (subscribe_terms_from input.plan) (λ e fails. ground (arith, takes)) in
        (terms, found, ground (arith, takes, found), plan_address takes)

    -- What the bounds say of the plan and the wallet that were asked for.
    pub record IsAsked (init : Option InitAuthority) (terms : SubscribeTerms) (b : SubscribeBounds)
        : Type 0 where
      pub plan : b.plan ≡ input.plan.pda
      pub merchant : b.merchant ≡ input.plan.owner
      pub subscriber : b.subscriber ≡ input.subscriber
      pub plan_id : b.plan_id ≡ input.plan.plan_id
      pub pinned : b.terms ≡ terms
      pub numbered : b.authority_init_id ≡ input.authority_init_id
      pub creates : b.inits_authority ≡ is_some init

    abbrev IsReadAs : Option InitAuthority → List I → Type 0
    IsReadAs init is =
        (terms : SubscribeTerms) × (subscribe_terms_from input.plan ≡ ok terms)
        × (b : SubscribeBounds) × (read_subscribe_bounds sdk is program ≡ ok b)
        × IsAsked init terms b

    read_alone :
        (i : I) (id : ℕ)
        → Built i
        → input.authority_init_id ≡ known id
        → id ≢ sdk.unknown_init_id
        → IsReadAs none (i ∷ [])
    unfolding read_subscribe_bounds see_all conclude init_id_for
    read_alone i id (terms, found, same, address) numbered differs = (
      terms,
      found,
      bounds_of false (parsed_back (args terms)),
      ground (
        arith,
        same,
        numbered,
        see_subscribe false terms,
        ==_iff (init_id_for sdk input.authority_init_id) sdk.unknown_init_id,
      ),
      record {
        plan = address;
        merchant = refl;
        subscriber = refl;
        plan_id = refl;
        pinned = refl;
        numbered = ground (arith, numbered);
        creates = refl;
      },
    )

    read_after_init :
        (init : InitAuthority) (a : InitArgs) (i : I)
        → Built i
        → a.program_address ≡ program
        → input.authority_init_id ≡ same_transaction
        → IsReadAs (some init) (sdk.init_authority a ∷ i ∷ [])
    unfolding read_subscribe_bounds see_all conclude init_id_for
    read_after_init init a i (terms, found, same, address) own numbered = (
      terms,
      found,
      bounds_of true (parsed_back (args terms)),
      ground (
        arith,
        same,
        numbered,
        see_init a own,
        see_subscribe true terms,
        ==_iff (init_id_for sdk input.authority_init_id) sdk.unknown_init_id,
      ),
      record {
        plan = address;
        merchant = refl;
        subscriber = refl;
        plan_id = refl;
        pinned = refl;
        numbered = ground (arith, numbered);
        creates = refl;
      },
    )

    module _ (valid : String → Bool) where
      init_args :
          (init : InitAuthority) (j : I)
          → build_init_authority_instruction sdk valid input.subscriber input.plan.mint
              init.token_program init.user_ata input.payer input.program_address
            ≡ ok j
          → (a : InitArgs) × (j ≡ sdk.init_authority a) × (a.program_address ≡ program)
      unfolding build_init_authority_instruction
      init_args init j h = (
        record {
          owner = input.subscriber;
          program_address = program;
          token_mint = input.plan.mint;
          token_program = init.token_program;
          user_ata = init.user_ata;
          payer = input.payer;
        },
        ground arith,
        refl,
      )

      -- Where the SDK's parser reads what its builders write and a known number of the authority
      -- is not the one that stands for "not known yet", the instructions that are built to
      -- subscribe to a plan are read back as just that: this plan, its merchant, this subscriber,
      -- and the plan's mint, amount, period and creation time, with the authority's number as it
      -- was given.
      pub build_subscribe-read :
          (init : Option InitAuthority) (is : List I)
          → build_subscribe_instructions sdk valid input init ≡ ok is
          → ((id : ℕ) → input.authority_init_id ≡ known id → id ≢ sdk.unknown_init_id)
          → IsReadAs init is
      unfolding build_subscribe_instructions init_instructions
      build_subscribe-read none is h differs =
          let (i, made) =
            succeeds (build_subscribe_instruction sdk input) (λ e fails. ground arith) in
          let (id, numbered) = known_of input.authority_init_id (ground arith) in
          let one : i ∷ [] ≡ is = ground (arith, made) in
          subst (IsReadAs none) one (read_alone i id (built i made) numbered (differs id numbered))
      build_subscribe-read (some init) is h differs =
          let (j, created) =
            succeeds
              (build_init_authority_instruction sdk valid input.subscriber input.plan.mint
                init.token_program init.user_ata input.payer input.program_address)
              (λ e fails. ground arith) in
          let (i, made) =
            succeeds (build_subscribe_instruction sdk input) (λ e fails. ground (arith, created)) in
          let (a, named, own) = init_args init j created in
          let two : sdk.init_authority a ∷ i ∷ [] ≡ is = ground (arith, made, created, named) in
          subst (IsReadAs (some init)) two (
            read_after_init init a i (built i made) own
              (same_of input.authority_init_id (ground arith)))
