-- ===== src/Indexer/Decode/Logs.antt =====
-- apps/indexer/src/decode.ts: what the log lines say of a failure, and what the balances say of the
-- accounts before it.
use Prim.Native.Char.{Char, code}
use cancel_chain.Common.{
  ℕ, suc, String, Bool, false, ◌&&◌, ◌||◌, Option, none, some, List, [], ◌∷◌, ◌==◌, leb,
  if◌then◌else◌, get_elem?, Result, ok, ◌>>=◌, is_some,
}
use cancel_chain.Common.Dict.{set}
use cancel_chain.Shared.Reasons.{Failure, custom, runtime, unrecognised}
use cancel_chain.Indexer.Decode.{
  Cause, named, coded, other_cause, TransactionError, instruction_error, other_error,
  TransactionMeta, TransactionRecord, AccountMeta, Sdk, DecodeFault, account_table,
}

-- `text.startsWith(prefix)`, with what follows the prefix.
unfoldable pub after_prefix : String → String → Option String
after_prefix String.[] text = some text
after_prefix (String.◌∷◌ c prefix) String.[] = none
after_prefix (String.◌∷◌ c prefix) (String.◌∷◌ d text) =
    if code c == code d then after_prefix prefix text else none

-- `\s`
abbrev pub is_space : ℕ → Bool
is_space c =
    (leb 9 c && leb c 13)
    || (c == 32)
    || (c == 0xa0)
    || (c == 0x1680)
    || (leb 0x2000 c && leb c 0x200a)
    || (c == 0x2028)
    || (c == 0x2029)
    || (c == 0x202f)
    || (c == 0x205f)
    || (c == 0x3000)
    || (c == 0xfeff)

abbrev pub cons_word : Char → String × String → String × String
cons_word c (word, rest) = (String.◌∷◌ c word, rest)

-- The longest run of characters that are no spaces, and the rest.
unfoldable pub word_of : String → String × String
word_of String.[] = (String.[], String.[])
word_of (String.◌∷◌ c text) =
    let more = word_of text in
    if is_space (code c) then (String.[], String.◌∷◌ c text) else cons_word c more

abbrev pub named_if : String → Option String → Option String
named_if String.[] rest = none
named_if (String.◌∷◌ c word) none = none
named_if (String.◌∷◌ c word) (some rest) = some (String.◌∷◌ c word)

abbrev pub failed_word : Option String → Option String
failed_word none = none
failed_word (some text) = named_if (word_of text).0 (after_prefix " failed: " (word_of text).1)

-- The program that `/^Program (\S+) failed: /` finds in a line.
unfoldable pub failed_line_program : String → Option String
failed_line_program line = failed_word (after_prefix "Program " line)

module _ (sdk : Sdk) where
  -- The first line that matches decides.
  unfoldable pub failing_program : List String → Option String
  failing_program [] = none
  failing_program (line ∷ logs) = elim (failed_line_program line) [
    | none ↦ failing_program logs
    | some program ↦ if sdk.is_valid program then some program else none
  ]

-- `line.startsWith(failedLine(program))`
abbrev pub says_failed : String → String → Bool
says_failed program line = elim (after_prefix "Program " line) [
  | none ↦ false
  | some rest ↦ elim (after_prefix program rest) [
    | none ↦ false
    | some tail ↦ is_some (after_prefix " failed" tail)
  ]
]

unfoldable pub read_failure : Cause → Failure
read_failure (named name) = runtime name
read_failure (coded n) = custom n
read_failure other_cause = unrecognised

pub record InstructionFailure : Type 0 where
  pub instruction_index : ℕ
  pub failure : Failure

unfoldable pub read_instruction_error : TransactionError → Option InstructionFailure
read_instruction_error other_error = none
read_instruction_error (instruction_error index cause) =
    some (record { instruction_index = index; failure = read_failure cause })

unfoldable pub token_owners :
    List AccountMeta
    → List (String × Option String)
    → List (ℕ × Option String)
    → List (String × Option String)
token_owners table known [] = known
token_owners table known ((index, owner) ∷ balances) = elim (get_elem? table index) [
  | none ↦ token_owners table known balances
  | some meta ↦ token_owners table (set meta.address owner known) balances
]

abbrev pub token_balances_of : Option TransactionMeta → Option (List (ℕ × Option String))
token_balances_of none = none
token_balances_of (some meta) = meta.pre_token_balances

abbrev pub balances_of : Option TransactionMeta → Option (List ℕ)
balances_of none = none
balances_of (some meta) = meta.pre_balances

module _ (sdk : Sdk) (tx : TransactionRecord) where
  unfoldable pub token_accounts_from :
      Option (List (ℕ × Option String))
      → Result DecodeFault (Option (List (String × Option String)))
  token_accounts_from none = ok none
  token_accounts_from (some balances) = do
    table ← account_table sdk tx
    ok (some (token_owners table [] balances))

  unfoldable pub existing_token_accounts :
      Result DecodeFault (Option (List (String × Option String)))
  existing_token_accounts = token_accounts_from (token_balances_of tx.meta)

  unfoldable pub funded_from : ℕ → List AccountMeta → List ℕ → List String
  funded_from index table [] = []
  funded_from index table (lamports ∷ balances) = elim (get_elem? table index) [
    | none ↦ funded_from (suc index) table balances
    | some meta ↦
        if lamports == 0
        then funded_from (suc index) table balances
        else meta.address ∷ funded_from (suc index) table balances
  ]

  unfoldable pub funded_of : Option (List ℕ) → Result DecodeFault (Option (List String))
  funded_of none = ok none
  funded_of (some balances) = do
    table ← account_table sdk tx
    ok (some (funded_from 0 table balances))

  unfoldable pub funded_accounts : Result DecodeFault (Option (List String))
  funded_accounts = funded_of (balances_of tx.meta)
