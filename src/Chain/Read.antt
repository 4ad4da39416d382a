-- ===== src/Chain/Read.antt =====
-- packages/chain/src/read.ts: reading accounts from the network, in batches, no older than asked.
-- The network's answers and the derivations of @solana/subscriptions are a parameter.
pub mod Batches
pub mod Plans
pub mod Cards
pub mod Wallet
use cancel_chain.Common.{
  ℕ, zero, suc, String, Bool, true, false, Option, none, some, List, [], ◌∷◌, ◌++◌, take, drop, ltb,
  if◌then◌else◌, length, Result, ok, throw, throw_if, ◌>>=◌, ◌>>◌,
}
use cancel_chain.Shared.Primitives.{max_safe_integer}
use cancel_chain.Chain.Decode.{Codecs}

pub record Account : Type 0 where
  pub account_owner : String
  pub bytes : List ℕ

pub record RawProgramAccount : Type 0 where
  pub pubkey : String
  pub account : Account

pub data ReadError : Type 0 where
  slot_behind : ℕ → ℕ → ReadError
  slot_out_of_range rpc_failed : ReadError

pub record Response (A : Type 0) : Type 0 where
  pub slot : ℕ
  pub value : A

-- The node's answers; the requests of one read come one after another, so an answer may depend on
-- which step of the read asks. Derivations and decoders are the SDK's.
pub record AllowanceReader : Type 0 where
  pub program_address : String
  pub usdc_mint : String
  pub accounts_of_owner : String → Result ReadError (Response (List RawProgramAccount))
  pub all_plan_accounts : Result ReadError (Response (List RawProgramAccount))
  pub get_multiple_accounts : ℕ → List String → Result ReadError (Response (List (Option Account)))
  pub plan_discriminator : ℕ
  pub plan_size : ℕ
  pub plan_mint : List ℕ → String
  pub authority_discriminator : ℕ
  pub authority_init_id : List ℕ → ℕ
  pub find_subscription : String → String → String
  pub find_subscription_authority : String → String → String
  pub sdk : Codecs

abbrev pub max_accounts_per_request : ℕ
max_accounts_per_request = 100

-- `chunk`, with the number of steps left.
unfoldable pub chunk_from {ℓ} : {A : Type ℓ} → ℕ → List A → ℕ → List (List A)
chunk_from zero items size = []
chunk_from (suc n) [] size = []
chunk_from (suc n) (x ∷ items) size =
    take size (x ∷ items) ∷ chunk_from n (drop size (x ∷ items)) size

-- Each step takes an item at least, so the length is enough.
unfoldable pub chunk {ℓ} : {A : Type ℓ} → List A → ℕ → List (List A)
chunk items size = chunk_from (length items) items size

-- `minContextSlot` of `ReadConfig`.
unfoldable pub ensure_floor : ℕ → Option ℕ → Result ReadError (Unit {0})
ensure_floor slot none = ok tt
ensure_floor slot (some floor) = throw_if (ltb slot floor) (slot_behind slot floor)

unfoldable pub slot_to_number : ℕ → Result ReadError ℕ
slot_to_number slot = if ltb max_safe_integer slot then throw slot_out_of_range else ok slot

-- The accounts that are there, each with the address that was asked for.
unfoldable pub found : List String → List (Option Account) → List RawProgramAccount
found batch [] = []
found [] (a ∷ answers) = []
found (key ∷ batch) (none ∷ answers) = found batch answers
found (key ∷ batch) (some a ∷ answers) = record { pubkey = key; account = a } ∷ found batch answers

module _ (reader : AllowanceReader) (step : ℕ) (floor : Option ℕ) where
  unfoldable pub read_batches :
      ℕ
      → List RawProgramAccount
      → List (List String)
      → Result ReadError (ℕ × List RawProgramAccount)
  read_batches slot accounts [] = ok (slot, accounts)
  read_batches slot accounts (batch ∷ batches) = do
    response ← reader.get_multiple_accounts step batch
    ensure_floor response.slot floor
    read_batches response.slot (accounts ++ found batch response.value) batches

  unfoldable pub read_accounts : List String → Result ReadError (ℕ × List RawProgramAccount)
  read_accounts addresses = read_batches 0 [] (chunk addresses max_accounts_per_request)
