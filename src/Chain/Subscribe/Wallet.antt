-- ===== src/Chain/Subscribe/Wallet.antt =====
-- packages/chain/src/subscribe.ts: readSubscriptionAuthority and readSubscriberState, what a wallet
-- has before it subscribes. The node's answers come in as a function; `step` counts the questions.
use cancel_chain.Common.{
  ℕ, ◌≡◌, refl, subst, sym, ap, ◌∙◌, String, Bool, true, not, Option, none, some, List, arith, ◌==◌,
  str_eq, eq_iff, if◌then◌else◌, length, is_some, succeeds, Result, ok, throw, throw_if, ◌>>=◌,
  ◌>>◌,
}
use cancel_chain.Chain.Read.{Account}
use cancel_chain.Chain.Read.Plans.{starts_with}
use cancel_chain.Chain.Subscribe.{SubscribeError, bad_address, mint_not_found, not_an_authority}

pub record WalletReader : Type 0 where
  pub program_address : String
  pub valid : String → Bool
  pub get_account_info : ℕ → String → Result SubscribeError (Option Account)
  pub authority_size : ℕ
  pub authority_discriminator : ℕ
  pub authority_init_id : List ℕ → ℕ
  pub find_authority_pda : String → String → String
  pub find_subscription_pda : String → String → String
  pub associated_token_pda : String → String → String → String

pub record SubscriptionAuthorityState : Type 0 where
  pub address : String
  pub init_id : Option ℕ

pub record SubscriberState : Type 0 where
  pub address : String
  pub authority : String
  pub authority_init_id : Option ℕ
  pub token_program : String
  pub token_account : String
  pub token_account_exists : Bool
  pub subscription : String
  pub subscribed : Bool

module _ (reader : WalletReader) where
  abbrev to_address : String → Result SubscribeError String
  to_address a = if reader.valid a then ok a else throw bad_address

  unfoldable pub authority_state :
      String → Option Account → Result SubscribeError SubscriptionAuthorityState
  authority_state address none = ok (record { address = address; init_id = none })
  authority_state address (some a) = do
    throw_if (not (str_eq a.account_owner reader.program_address)) not_an_authority
    throw_if (not (length a.bytes == reader.authority_size)) not_an_authority
    throw_if (not (starts_with a.bytes reader.authority_discriminator)) not_an_authority
    ok (record { address = address; init_id = some (reader.authority_init_id a.bytes) })

  unfoldable pub read_subscription_authority :
      (user token_mint : String) → Result SubscribeError SubscriptionAuthorityState
  read_subscription_authority user token_mint = do
    owner ← to_address user
    mint ← to_address token_mint
    value ← reader.get_account_info 0 (reader.find_authority_pda owner mint)
    authority_state (reader.find_authority_pda owner mint) value

  abbrev token_program_of : Option Account → Result SubscribeError String
  token_program_of none = throw mint_not_found
  token_program_of (some a) = ok a.account_owner

  abbrev subscriber_state :
      (user plan mint : String)
      → SubscriptionAuthorityState
      → (own token_info : Option Account) → (token_program : String) → SubscriberState
  subscriber_state user plan mint authority own token_info token_program = record {
    address = user;
    authority = authority.address;
    authority_init_id = authority.init_id;
    token_program = token_program;
    token_account = reader.associated_token_pda user token_program mint;
    token_account_exists = is_some token_info;
    subscription = reader.find_subscription_pda plan user;
    subscribed = is_some own;
  }

  -- What follows once the first three questions are answered.
  unfoldable pub with_answers :
      (user plan mint : String)
      → SubscriptionAuthorityState
      → (mint_account own : Option Account) → Result SubscribeError SubscriberState
  with_answers user plan mint authority mint_account own = do
    program ← token_program_of mint_account
    token_info ← reader.get_account_info 3 (reader.associated_token_pda user program mint)
    ok (subscriber_state user plan mint authority own token_info program)

  -- `Promise.all` asks its three questions of one node.
  unfoldable pub read_subscriber_state :
      (subscriber plan_pda mint : String) → Result SubscribeError SubscriberState
  read_subscriber_state subscriber plan_pda mint = do
    plan ← to_address plan_pda
    user ← to_address subscriber
    token_mint ← to_address mint
    authority ← read_subscription_authority user token_mint
    mint_account ← reader.get_account_info 1 token_mint
    subscription_account ← reader.get_account_info 2 (reader.find_subscription_pda plan user)
    with_answers user plan token_mint authority mint_account subscription_account

  -- What is known of an address: nothing is there, or an authority of the program.
  abbrev pub IsAuthority : Option Account → Option ℕ → Type 0
  IsAuthority none id = id ≡ none
  IsAuthority (some a) id =
      (a.account_owner ≡ reader.program_address)
      × (length a.bytes ≡ reader.authority_size)
      × (starts_with a.bytes reader.authority_discriminator ≡ true)
      × (id ≡ some (reader.authority_init_id a.bytes))

  answer_at :
      (address : String) (value : Option Account) (s : SubscriptionAuthorityState)
      → authority_state address value ≡ ok s
      → (s.address ≡ address) × IsAuthority value s.init_id
  unfolding authority_state
  answer_at address none s h =
      let same : record { address = address; init_id = none } ≡ s = ground arith in
      (sym (ap (λ x. x.address) same), sym (ap (λ x. x.init_id) same))
  answer_at address (some a) s h =
      let same : record { address = address; init_id = some (reader.authority_init_id a.bytes) }
          ≡ s =
        ground arith in
      (
        sym (ap (λ x. x.address) same),
        (
          ground (arith, eq_iff a.account_owner reader.program_address),
          ground arith,
          ground arith,
          sym (ap (λ x. x.init_id) same),
        ),
      )

  -- A wallet is shown without an authority only where the node says that no account is there, and
  -- with one only where the account is an authority of the program; any other account is an error.
  pub read-IsAuthority-IsAuthority :
      (user mint : String) (s : SubscriptionAuthorityState)
      → read_subscription_authority user mint ≡ ok s
      → (s.address ≡ reader.find_authority_pda user mint)
        × (value : Option Account) × (reader.get_account_info 0 s.address ≡ ok value)
        × IsAuthority value s.init_id
  unfolding read_subscription_authority
  read-IsAuthority-IsAuthority user mint s h =
      let address = reader.find_authority_pda user mint in
      let (value, answer) =
        succeeds (reader.get_account_info 0 address) (λ e fails. ground arith) in
      let (at, is) = answer_at address value s (ground (arith, answer)) in
      (at, value, ap (reader.get_account_info 0) at ∙ answer, is)

  mint_there :
      (m : Option Account) (program : String)
      → token_program_of m ≡ ok program
      → (a : Account) × (m ≡ some a)
  mint_there none program h = absurd (ground arith)
  mint_there (some a) program h = (a, refl)

  -- The token account stands under the program that owns the mint.
  abbrev pub IsStateOf : (user plan mint : String) → Option Account → SubscriberState → Type 0
  IsStateOf user plan mint own s =
      (mint_account : Account) × (reader.get_account_info 1 mint ≡ ok (some mint_account))
      × (s.token_account ≡ reader.associated_token_pda user mint_account.account_owner mint)
      × (token : Option Account) × (reader.get_account_info 3 s.token_account ≡ ok token)
      × (s.token_account_exists ≡ is_some token)
      × (s.subscription ≡ reader.find_subscription_pda plan user)
      × (s.subscribed ≡ is_some own)

  with_answers_sound :
      (user plan mint : String) (authority : SubscriptionAuthorityState) (m own : Option Account)
      (s : SubscriberState)
      → reader.get_account_info 1 mint ≡ ok m
      → with_answers user plan mint authority m own ≡ ok s
      → IsStateOf user plan mint own s
  unfolding with_answers
  with_answers_sound user plan mint authority none own s asked h = absurd (ground arith)
  with_answers_sound user plan mint authority (some a) own s asked h =
      let token_account = reader.associated_token_pda user a.account_owner mint in
      let (token, t) =
        succeeds (reader.get_account_info 3 token_account) (λ e fails. ground arith) in
      let same : subscriber_state user plan mint authority own token a.account_owner ≡ s =
        ground (arith, t) in
      subst (IsStateOf user plan mint own) same (a, asked, refl, token, t, refl, refl, refl)

  -- What is shown of a wallet is what the node says of the four accounts, each at the address that
  -- derives from the wallet, the plan and the mint; the token account under the program that owns
  -- the mint, which must be there.
  pub read_subscriber-IsStateOf :
      (subscriber plan mint : String) (s : SubscriberState)
      → read_subscriber_state subscriber plan mint ≡ ok s
      → (own : Option Account) × (reader.get_account_info 2
            (reader.find_subscription_pda plan subscriber)
          ≡ ok own)
        × IsStateOf subscriber plan mint own s
  unfolding read_subscriber_state
  read_subscriber-IsStateOf subscriber plan mint s h =
      let (authority, a) =
        succeeds (read_subscription_authority subscriber mint) (λ e fails. ground arith) in
      let (m, asked) = succeeds (reader.get_account_info 1 mint) (λ e fails. ground (arith, a)) in
      let (own, o) =
        succeeds (reader.get_account_info 2 (reader.find_subscription_pda plan subscriber))
          (λ e fails. ground (arith, a, asked)) in
      (
        own,
        o,
        with_answers_sound subscriber plan mint authority m own s asked
            (ground (arith, a, asked, o)),
      )
