-- ===== src/Chain/Read/Plans.antt =====
-- packages/chain/src/read.ts: the plan of a subscription, and the authority behind a permission.
pub mod Derived
use cancel_chain.Common.{
  ℕ, suc, ◌≡◌, refl, String, Bool, true, false, not, ◌&&◌, ◌||◌, Option, none, some, List, [], ◌∷◌,
  ◌++◌, map, arith, ◌==◌, str_eq, if◌then◌else◌, length, is_some, any, includes, add_to, Result, ok,
  throw, ◌>>=◌,
}
use cancel_chain.Common.Dict.{get, set, has}
use cancel_chain.Chain.Decode.{
  DecodedDelegation, fixed, recurring, subscription, unknown, PlanRef, Header,
}
use cancel_chain.Chain.Read.{RawProgramAccount, AllowanceReader, ReadError, read_accounts}

pub record PlanAccount : Type 0 where
  pub address : String
  pub mint : String

pub record SubscriptionAccount : Type 0 where
  pub address : String
  pub subscriber : String
  pub delegatee : String

abbrev pub starts_with : List ℕ → ℕ → Bool
starts_with [] d = false
starts_with (b ∷ bytes) d = b == d

-- `[...new Set(xs)]`
unfoldable pub distinct : List String → List String → List String
distinct known [] = known
distinct known (x ∷ xs) = distinct (add_to known x) xs

-- `if (plan !== null) plans.push(plan)`
abbrev pub push_some : Option PlanAccount → List PlanAccount → List PlanAccount
push_some none plans = plans
push_some (some plan) plans = plan ∷ plans

module _ (reader : AllowanceReader) where
  unfoldable pub to_plan_account : RawProgramAccount → Option PlanAccount
  to_plan_account raw =
      if not (str_eq raw.account.account_owner reader.program_address)
      then none
      else if not (starts_with raw.account.bytes reader.plan_discriminator)
      then none
      else if not (length raw.account.bytes == reader.plan_size)
      then none
      else some (record { address = raw.pubkey; mint = reader.plan_mint raw.account.bytes })

  unfoldable pub to_plans : List RawProgramAccount → List PlanAccount
  to_plans [] = []
  to_plans (raw ∷ raws) = push_some (to_plan_account raw) (to_plans raws)

  -- The plans and the authorities are the second and the third question of a read.
  unfoldable pub read_plans_by_address :
      Option ℕ → List String → Result ReadError (List PlanAccount)
  read_plans_by_address floor addresses = do
    (slot, accounts) ← read_accounts reader 1 floor addresses
    ok (to_plans accounts)

  unfoldable pub scan_all_plans : Result ReadError (List PlanAccount)
  scan_all_plans = do response ← reader.all_plan_accounts; ok (to_plans response.value)

  -- The inner loop of `indexPlans`: one plan, each subscriber.
  unfoldable pub index_plan :
      PlanAccount → List String → List (String × PlanRef) → List (String × PlanRef)
  index_plan plan [] refs = refs
  index_plan plan (s ∷ subscribers) refs = index_plan plan subscribers (
      set (reader.find_subscription plan.address s)
        (record { pda = plan.address; mint = plan.mint }) refs)

  unfoldable pub index_plans :
      List PlanAccount → List String → List (String × PlanRef) → List (String × PlanRef)
  index_plans [] subscribers refs = refs
  index_plans (plan ∷ plans) subscribers refs =
      index_plans plans subscribers (index_plan plan subscribers refs)

  unfoldable pub resolve_plan_refs :
      Option ℕ → Bool → List SubscriptionAccount → Result ReadError (List (String × PlanRef))
  resolve_plan_refs floor full_plan_scan [] = ok []
  resolve_plan_refs floor full_plan_scan (s ∷ ss) = do
    let subscribers = distinct [] (map (λ e. e.subscriber) (s ∷ ss))
    let candidates = distinct [] (map (λ e. e.delegatee) (s ∷ ss))
    plans ← read_plans_by_address floor candidates
    let refs = index_plans plans subscribers []
    let missing = any (λ e. not (has e.address refs)) (s ∷ ss)
    if missing && full_plan_scan
        then scan_all_plans >>= (λ all_plans. ok (index_plans all_plans subscribers refs))
        else ok refs

pub data AuthorityState : Type 0 where
  live closed rotated : AuthorityState

module _ (reader : AllowanceReader) (refs : List (String × PlanRef)) where
  -- The derivation reads the account's own `delegator` and its plan's mint.
  unfoldable pub authority_address : DecodedDelegation → Option (String × String)
  authority_address (fixed address d) = some (address, d.subscription_authority)
  authority_address (recurring address d) = some (address, d.subscription_authority)
  authority_address (unknown address d reason) = none
  authority_address (subscription address d) = elim (get address refs) [
    | none ↦ none
    | some plan ↦ some (address, reader.find_subscription_authority d.header.delegator plan.mint)
  ]

  unfoldable pub authority_addresses :
      List (String × String) → List DecodedDelegation → List (String × String)
  authority_addresses by_permission [] = by_permission
  authority_addresses by_permission (d ∷ ds) = elim (authority_address d) [
    | none ↦ authority_addresses by_permission ds
    | some (permission, authority) ↦ authority_addresses (set permission authority by_permission) ds
  ]

module _ (reader : AllowanceReader) where
  abbrev pub is_authority : RawProgramAccount → Bool
  is_authority raw =
      str_eq raw.account.account_owner reader.program_address
      && starts_with raw.account.bytes reader.authority_discriminator

  -- `initIds`
  unfoldable pub init_ids : List (String × ℕ) → List RawProgramAccount → List (String × ℕ)
  init_ids known [] = known
  init_ids known (raw ∷ raws) =
      if is_authority raw
      then init_ids (set raw.pubkey (reader.authority_init_id raw.account.bytes) known) raws
      else init_ids known raws

abbrev pub state_of : Option ℕ → ℕ → AuthorityState
state_of none own = closed
state_of (some current) own = if current == own then live else rotated

-- The permission's address and `header.initId`.
abbrev pub permission_of : DecodedDelegation → Option (String × ℕ)
permission_of (fixed address d) = some (address, d.header.init_id)
permission_of (recurring address d) = some (address, d.header.init_id)
permission_of (subscription address d) = some (address, d.header.init_id)
permission_of (unknown address d reason) = none

module _ (by_permission : List (String × String)) (ids : List (String × ℕ)) where
  unfoldable pub set_state :
      Option (String × ℕ) → List (String × AuthorityState) → List (String × AuthorityState)
  set_state none states = states
  set_state (some (permission, own)) states = elim (get permission by_permission) [
    | none ↦ states
    | some authority ↦ set permission (state_of (get authority ids) own) states
  ]

  unfoldable pub set_states :
      List (String × AuthorityState) → List DecodedDelegation → List (String × AuthorityState)
  set_states states [] = states
  set_states states (d ∷ ds) = set_states (set_state (permission_of d) states) ds

abbrev pub values {ℓ} : {V : Type ℓ} → List (String × V) → List V
values [] = []
values ((k, v) ∷ m) = v ∷ values m

unfoldable pub states_of :
    AllowanceReader
    → Option ℕ
    → List DecodedDelegation
    → List (String × String)
    → Result ReadError (List (String × AuthorityState))
states_of reader floor decoded [] = ok []
states_of reader floor decoded (entry ∷ by_permission) = do
  (slot, accounts) ← read_accounts reader 2 floor (distinct [] (values (entry ∷ by_permission)))
  ok (set_states (entry ∷ by_permission) (init_ids reader [] accounts) [] decoded)

unfoldable pub authority_states :
    AllowanceReader
    → Option ℕ
    → List DecodedDelegation
    → List (String × PlanRef)
    → Result ReadError (List (String × AuthorityState))
authority_states reader floor decoded refs =
    states_of reader floor decoded (authority_addresses reader refs [] decoded)
