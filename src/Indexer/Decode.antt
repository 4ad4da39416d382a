-- ===== src/Indexer/Decode.antt =====
-- apps/indexer/src/decode.ts: a transaction's instructions, outer and inner, in their order. The
-- text of an instruction's data is decoded by @solana/kit's base58: a parameter, as are the check of
-- an address, the derivations and the parser of @solana/subscriptions.
pub mod Logs
pub mod Bodies
pub mod Transaction
pub mod Positions
pub mod Refused
pub mod Kinds
use cancel_chain.Common.{
  ℕ, suc, ◌+◌, ◌-◌, String, Bool, true, false, Option, none, some, List, [], ◌∷◌, ◌++◌, map, ltb,
  ◌==◌, if◌then◌else◌, length, get_elem?, Result, ok, throw, ◌>>=◌,
}
use cancel_chain.Chain.Events.{EventCodecs}

pub record CompiledInstruction : Type 0 where
  pub program_id_index : ℕ
  pub accounts : List ℕ
  pub data_text : String

pub record MessageHeader : Type 0 where
  pub num_required_signatures : ℕ
  pub num_readonly_signed_accounts : ℕ
  pub num_readonly_unsigned_accounts : ℕ

-- What `InstructionError` holds; whatever has another shape is `other_error` or `other_cause`.
pub data Cause : Type 0 where
  named : String → Cause
  coded : ℕ → Cause
  other_cause : Cause

pub data TransactionError : Type 0 where
  instruction_error : ℕ → Cause → TransactionError
  other_error : TransactionError

pub record TransactionMeta : Type 0 where
  pub err : Option TransactionError
  pub log_messages : List String
  pub inner_instructions : List (ℕ × List CompiledInstruction)
  pub loaded_writable : List String
  pub loaded_readonly : List String
  pub pre_token_balances : Option (List (ℕ × Option String))
  pub pre_balances : Option (List ℕ)

pub record TransactionRecord : Type 0 where
  pub slot : ℕ
  pub block_time : Option ℕ
  pub signatures : List String
  pub account_keys : List String
  pub header : MessageHeader
  pub instructions : List CompiledInstruction
  pub meta : Option TransactionMeta

pub data AccountRole : Type 0 where
  readonly writable readonly_signer writable_signer : AccountRole

pub record AccountMeta : Type 0 where
  pub address : String
  pub role : AccountRole

pub record LocatedInstruction : Type 0 where
  pub outer_index : ℕ
  pub position : ℕ
  pub inner : Bool
  pub program_address : String
  pub accounts : List AccountMeta
  pub bytes : List ℕ

-- The accounts and the amount of one of the three charging instructions.
pub record TransferInstruction : Type 0 where
  pub permission : String
  pub delegator_ata : String
  pub receiver_ata : String
  pub subscription_authority : String
  pub token_mint : String
  pub amount : ℕ

-- `ParsedSubscriptionsInstruction`, as far as it is looked into.
pub data Parsed : Type 0 where
  transfer_subscription transfer_recurring transfer_fixed : TransferInstruction → Parsed
  create_fixed_delegation create_recurring_delegation : String → String → Parsed
  revoke_delegation revoke_abandoned_delegation revoke_abandoned_subscription : String → Parsed
  close_subscription_authority revoke_subscription_authority : String → String → Parsed
  other_instruction : Parsed

pub record Sdk : Type 0 where
  pub is_valid : String → Bool
  pub base58 : String → List ℕ
  pub parse : LocatedInstruction → Option Parsed
  pub find_subscription : String → String → String
  pub find_subscription_authority : String → String → String
  pub kit : EventCodecs

pub data DecodeFault : Type 0 where
  no_signature bad_address index_outside : DecodeFault

abbrev pub role_of : Bool → Bool → AccountRole
role_of true true = writable_signer
role_of true false = readonly_signer
role_of false true = writable
role_of false false = readonly

-- `toAddress`
unfoldable pub to_address : Sdk → String → Result DecodeFault String
to_address sdk key = if sdk.is_valid key then ok key else throw bad_address

module _ (sdk : Sdk) where
  unfoldable pub static_metas :
      MessageHeader → ℕ → ℕ → List String → Result DecodeFault (List AccountMeta)
  static_metas h total i [] = ok []
  static_metas h total i (key ∷ rest) = do
    address ← to_address sdk key
    others ← static_metas h total (suc i) rest
    let signer = ltb i h.num_required_signatures
    let may_write =
        if signer
        then ltb i (h.num_required_signatures - h.num_readonly_signed_accounts)
        else ltb i (total - h.num_readonly_unsigned_accounts)
    ok (record { address = address; role = role_of signer may_write } ∷ others)

  unfoldable pub loaded_metas : AccountRole → List String → Result DecodeFault (List AccountMeta)
  loaded_metas role [] = ok []
  loaded_metas role (key ∷ rest) = do
    address ← to_address sdk key
    others ← loaded_metas role rest
    ok (record { address = address; role = role } ∷ others)

  abbrev pub loaded_of : Option TransactionMeta → List String × List String
  loaded_of none = ([], [])
  loaded_of (some meta) = (meta.loaded_writable, meta.loaded_readonly)

  unfoldable pub account_table : TransactionRecord → Result DecodeFault (List AccountMeta)
  account_table tx = do
    statics ← static_metas tx.header (length tx.account_keys) 0 tx.account_keys
    writables ← loaded_metas writable (loaded_of tx.meta).0
    readonlys ← loaded_metas readonly (loaded_of tx.meta).1
    ok (statics ++ (writables ++ readonlys))

  abbrev pub required : Option AccountMeta → Result DecodeFault AccountMeta
  required none = throw index_outside
  required (some meta) = ok meta

  unfoldable pub metas_at : List AccountMeta → List ℕ → Result DecodeFault (List AccountMeta)
  metas_at table [] = ok []
  metas_at table (i ∷ rest) = do
    meta ← required (get_elem? table i)
    others ← metas_at table rest
    ok (meta ∷ others)

  unfoldable pub locate :
      CompiledInstruction → List AccountMeta → ℕ → Bool → ℕ → Result DecodeFault LocatedInstruction
  locate compiled table outer_index inner position = do
    program ← required (get_elem? table compiled.program_id_index)
    accounts ← metas_at table compiled.accounts
    ok (record {
      outer_index = outer_index;
      position = position;
      inner = inner;
      program_address = program.address;
      accounts = accounts;
      bytes = sdk.base58 compiled.data_text;
    })

-- `innerByOuter.get(outerIndex) ?? []`: a later group of the same index replaces an earlier one.
unfoldable pub inner_of :
    List (ℕ × List CompiledInstruction) → ℕ → List CompiledInstruction → List CompiledInstruction
inner_of [] i found = found
inner_of ((index, group) ∷ groups) i found = inner_of groups i (if index == i then group else found)

abbrev pub inners_of : Option TransactionMeta → List (ℕ × List CompiledInstruction)
inners_of none = []
inners_of (some meta) = meta.inner_instructions

pub record Placed : Type 0 where
  pub compiled : CompiledInstruction
  pub outer_index : ℕ
  pub inner : Bool

abbrev pub place_inner : ℕ → CompiledInstruction → Placed
place_inner i compiled = record { compiled = compiled; outer_index = i; inner = true }

-- The `flatMap`: each outer instruction and the inner ones that it called.
unfoldable pub placed_from :
    List (ℕ × List CompiledInstruction) → ℕ → List CompiledInstruction → List Placed
placed_from groups i [] = []
placed_from groups i (outer ∷ rest) =
    record { compiled = outer; outer_index = i; inner = false }
    ∷ (map (place_inner i) (inner_of groups i []) ++ placed_from groups (suc i) rest)

unfoldable pub locate_all :
    Sdk → List AccountMeta → ℕ → List Placed → Result DecodeFault (List LocatedInstruction)
locate_all sdk table position [] = ok []
locate_all sdk table position (p ∷ rest) = do
  ix ← locate sdk p.compiled table p.outer_index p.inner position
  others ← locate_all sdk table (suc position) rest
  ok (ix ∷ others)

unfoldable pub all_instructions :
    Sdk → TransactionRecord → Result DecodeFault (List LocatedInstruction)
all_instructions sdk tx = do
  table ← account_table sdk tx
  locate_all sdk table 0 (placed_from (inners_of tx.meta) 0 tx.instructions)
