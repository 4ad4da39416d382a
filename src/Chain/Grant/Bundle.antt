-- ===== src/Chain/Grant/Bundle.antt =====
-- packages/chain/src/grant.ts: the transaction, and the authority created in it.
use cancel_chain.Common.{
  ℕ, ◌≡◌, ◌∙◌, subst, refl, String, Bool, Option, none, some, List, [], ◌∷◌, arith, succeeds, sym,
  ap, true, false, or_else, ok,
}
use cancel_chain.Chain.Instructions.{SubscriptionsSdk, InitArgs, TransactionMessage}
use cancel_chain.Chain.Grant.Accepted.{IsMoment, IsGuard, CallOf, common_args, build_grant_sound}
use cancel_chain.Chain.Grant.{
  expires_of, GrantInput, AuthorityInitId, known, same_transaction, is_same_transaction,
  InitAuthority, init_instructions, assert_init_agrees, build_init_authority_instruction,
  build_grant_instruction, build_grant_transaction,
}

pub known_of : (id : AuthorityInitId) → is_same_transaction id ≡ false → (n : ℕ) × (id ≡ known n)
known_of (known n) h = (n, refl)
known_of same_transaction h = absurd (ground arith)

pub same_of : (id : AuthorityInitId) → is_same_transaction id ≡ true → id ≡ same_transaction
same_of id h = ground arith

module _ {I : Type 0} (sdk : SubscriptionsSdk I) (valid : String → Bool) (input : GrantInput) where
  -- The call that grants what was asked for, where an authority of that number is expected.
  abbrev pub IsGrant : ℕ → I → Type 0
  IsGrant guard grant =
      (expiry : ℕ) × IsMoment (expires_of input.bounds) expiry
      × CallOf sdk valid input input.bounds (common_args sdk valid input guard expiry) grant

  -- The creation of the wallet's authority for the permission's mint.
  abbrev pub init_args : InitAuthority → InitArgs
  init_args init = record {
    owner = input.delegator;
    program_address = or_else input.program_address sdk.default_program;
    token_mint = input.token_mint;
    token_program = init.token_program;
    user_ata = init.user_ata;
    payer = input.payer;
  }

  built-IsGrant :
      (grant : I) (id : AuthorityInitId) (guard : ℕ)
      → build_grant_instruction sdk valid input ≡ ok grant
      → input.authority_init_id ≡ id
      → ((n : ℕ) → IsGuard sdk.unknown_init_id id n → n ≡ guard)
      → IsGrant guard grant
  built-IsGrant grant id guard built is named =
      let (_, n, own, expiry, at, call) = build_grant_sound sdk valid input grant built in
      let same : n ≡ guard = named n (subst (λ x. IsGuard sdk.unknown_init_id x n) is own) in
      (
        expiry,
        at,
        subst
            (λ g. CallOf sdk valid input input.bounds (common_args sdk valid input g expiry) grant)
            same call,
      )

  init-built :
      (init : InitAuthority) (first : I)
      → build_init_authority_instruction sdk valid input.delegator input.token_mint
          init.token_program init.user_ata input.payer input.program_address
        ≡ ok first
      → first ≡ sdk.init_authority (init_args init)
  unfolding build_init_authority_instruction
  init-built init first h = ground (arith, h)

  -- One instruction against an authority that is there, or two of which the first creates the
  -- authority of the same wallet and mint.
  abbrev pub Bundles : Option InitAuthority → List I → Type 0
  Bundles none is =
      (id : ℕ) × (input.authority_init_id ≡ known id)
      × (grant : I) × IsGrant id grant
      × (is ≡ grant ∷ [])
  Bundles (some init) is =
      (input.authority_init_id ≡ same_transaction)
      × (grant : I) × IsGrant sdk.unknown_init_id grant
      × (is ≡ sdk.init_authority (init_args init) ∷ grant ∷ [])

  abbrev message : String → List I → TransactionMessage I
  message lifetime is = record {
    fee_payer = or_else input.payer input.delegator;
    lifetime = lifetime;
    instructions = is;
  }

  -- A grant's transaction either is the grant alone, which expects exactly the authority's number
  -- that was read, or creates the wallet's authority for the permission's mint first and then
  -- expects the number of an authority that is not known yet. The payer, or else the wallet, pays.
  pub build_grant_transaction-Bundles :
      (init : Option InitAuthority) (lifetime : String) (m : TransactionMessage I)
      → build_grant_transaction sdk valid input init lifetime ≡ ok m
      → Bundles init m.instructions × (m.fee_payer ≡ or_else input.payer input.delegator)
  unfolding build_grant_transaction assert_init_agrees init_instructions
  build_grant_transaction-Bundles none lifetime m h =
      let (grant, built) =
        succeeds (build_grant_instruction sdk valid input) (λ e fails. ground arith) in
      let (id, numbered) = known_of input.authority_init_id (ground arith) in
      let same : message lifetime (grant ∷ []) ≡ m = ground (arith, built) in
      (
        (
          id,
          numbered,
          grant,
          built-IsGrant grant (known id) id built numbered (λ n own. own),
          sym (ap (λ x. x.instructions) same),
        ),
        sym (ap (λ x. x.fee_payer) same),
      )
  build_grant_transaction-Bundles (some init) lifetime m h =
      let (first, created) =
        succeeds
          (build_init_authority_instruction sdk valid input.delegator input.token_mint
            init.token_program init.user_ata input.payer input.program_address)
          (λ e fails. ground arith) in
      let (grant, built) =
        succeeds (build_grant_instruction sdk valid input) (λ e fails. ground (arith, created)) in
      let bundled = same_of input.authority_init_id (ground arith) in
      let same : message lifetime (first ∷ grant ∷ []) ≡ m = ground (arith, built, created) in
      (
        (
          bundled,
          grant,
          built-IsGrant grant same_transaction sdk.unknown_init_id built bundled (λ n own. own),
          sym (ap (λ x. x.instructions) same)
              ∙ ap (λ x. x ∷ grant ∷ []) (init-built init first created),
        ),
        sym (ap (λ x. x.fee_payer) same),
      )
