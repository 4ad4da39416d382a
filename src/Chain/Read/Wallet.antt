-- ===== src/Chain/Read/Wallet.antt =====
-- packages/chain/src/read.ts: all permissions of a wallet, and one permission by its address.
pub mod Complete
pub mod One
use Prim.Native.String.{compare}
use Prim.Native.Nat.{Ordering}
use cancel_chain.Common.{
  ℕ, String, Bool, true, false, not, Option, none, some, List, [], ◌∷◌, map, str_eq, if◌then◌else◌,
  get_elem?, Result, ok, throw, ◌>>=◌, ◌>>◌,
}
use cancel_chain.Chain.Decode.{
  DecodedDelegation, fixed, recurring, subscription, unknown, decode_delegation,
}
use cancel_chain.Chain.Read.{
  RawProgramAccount, AllowanceReader, ReadError, ensure_floor, slot_to_number, read_accounts,
}
use cancel_chain.Chain.Read.Plans.{SubscriptionAccount, resolve_plan_refs, authority_states}
use cancel_chain.Chain.Read.Cards.{UnreadableAllowance, ReadAllowance, convert}

-- `byAddress(a, b) > 0`
abbrev pub is_after : String → String → Bool
is_after a b = elim (compare a b) [ Ordering.gt ↦ true | _ ↦ false ]

-- `xs.sort(byAddress)` by the address that `key` reads: a stable sort.
module _ {A : Type 0} (key : A → String) where
  unfoldable pub insert : A → List A → List A
  insert x [] = x ∷ []
  insert x (y ∷ ys) = if is_after (key x) (key y) then y ∷ insert x ys else x ∷ (y ∷ ys)

  unfoldable pub sort : List A → List A
  sort [] = []
  sort (x ∷ xs) = insert x (sort xs)

pub record AllowanceReadResult : Type 0 where
  pub slot : ℕ
  pub synced_at : ℕ
  pub allowances : List ReadAllowance
  pub unreadable : List UnreadableAllowance

pub record AllowanceReadOne : Type 0 where
  pub slot : ℕ
  pub synced_at : ℕ
  pub allowance : Option ReadAllowance
  pub unreadable : Option UnreadableAllowance

unfoldable pub subscription_accounts : List DecodedDelegation → List SubscriptionAccount
subscription_accounts [] = []
subscription_accounts (subscription address d ∷ ds) =
    record { address = address; subscriber = d.header.delegator; delegatee = d.header.delegatee }
    ∷ subscription_accounts ds
subscription_accounts (fixed address d ∷ ds) = subscription_accounts ds
subscription_accounts (recurring address d ∷ ds) = subscription_accounts ds
subscription_accounts (unknown address d reason ∷ ds) = subscription_accounts ds

abbrev pub decode_raw : AllowanceReader → RawProgramAccount → DecodedDelegation
decode_raw reader raw = decode_delegation reader.sdk raw.pubkey raw.account.bytes

-- `synced_at` and `now` are the moments that the clock gives where the options name none.
module _ (reader : AllowanceReader) (floor : Option ℕ) (full_plan_scan : Bool)
    (synced_at now : ℕ) where
  -- What both reads do with the accounts that they have.
  unfoldable pub cards_of :
      ℕ → List DecodedDelegation → Result ReadError (List ReadAllowance × List UnreadableAllowance)
  cards_of slot decoded = do
    refs ← resolve_plan_refs reader floor full_plan_scan (subscription_accounts decoded)
    authorities ← authority_states reader floor decoded refs
    ok (convert reader refs authorities slot synced_at now decoded)

  unfoldable pub read_allowances : String → Result ReadError AllowanceReadResult
  read_allowances owner = do
    response ← reader.accounts_of_owner owner
    ensure_floor response.slot floor
    slot ← slot_to_number response.slot
    (cards, refusals) ← cards_of slot (map (decode_raw reader) response.value)
    ok (record {
      slot = slot;
      synced_at = synced_at;
      allowances = sort (λ c. c.allowance.pda) cards;
      unreadable = sort (λ u. u.address) refusals;
    })

  abbrev pub absent : ℕ → AllowanceReadOne
  absent slot = record { slot = slot; synced_at = synced_at; allowance = none; unreadable = none }

  unfoldable pub read_owned : ℕ → RawProgramAccount → Result ReadError AllowanceReadOne
  read_owned slot raw = do
    (cards, refusals) ← cards_of slot (decode_raw reader raw ∷ [])
    ok (record {
      slot = slot;
      synced_at = synced_at;
      allowance = get_elem? cards 0;
      unreadable = get_elem? refusals 0;
    })

  unfoldable pub read_found : ℕ → Option RawProgramAccount → Result ReadError AllowanceReadOne
  read_found slot none = ok (absent slot)
  read_found slot (some raw) =
      if not (str_eq raw.account.account_owner reader.program_address)
      then ok (absent slot)
      else read_owned slot raw

  unfoldable pub read_allowance : String → Result ReadError AllowanceReadOne
  read_allowance pda = do
    (raw_slot, accounts) ← read_accounts reader 0 floor (pda ∷ [])
    slot ← slot_to_number raw_slot
    read_found slot (get_elem? accounts 0)
