-- ===== src/Indexer/Decode/Transaction.antt =====
-- apps/indexer/src/decode.ts: `decodeTransaction`, the loop over a failed transaction's instructions
-- and the loop over a successful one's.
use cancel_chain.Common.{
  ℕ, String, Bool, not, ◌||◌, Option, none, some, List, [], ◌∷◌, ◌==◌, str_eq, if◌then◌else◌,
  filter, any, is_some, Result, ok, throw, ◌>>=◌,
}
use cancel_chain.Shared.Reasons.{Failure}
use cancel_chain.Chain.Events.{
  event, not_an_event, unreadable, EventReadResult, UnreadableEvent, read_program_event,
}
use cancel_chain.Indexer.Decode.{
  TransactionError, TransactionMeta, TransactionRecord, LocatedInstruction, Parsed, Sdk,
  DecodeFault, no_signature, all_instructions,
}
use cancel_chain.Indexer.Decode.Logs.{
  failing_program, says_failed, InstructionFailure, read_instruction_error, existing_token_accounts,
  funded_accounts,
}
use cancel_chain.Indexer.Decode.Bodies.{
  Body, rejected, ChargeAttempt, charge_attempt, from_instruction, from_event, authority_facts,
  existed_of,
}

pub record IndexedEvent : Type 0 where
  pub signature : String
  pub slot : ℕ
  pub block_time : Option ℕ
  pub instruction_index : ℕ
  pub position : ℕ
  pub body : Body

pub data DecodeProblem : Type 0 where
  unreadable_event : ℕ → UnreadableEvent → DecodeProblem
  unparsable_instruction : ℕ → DecodeProblem
  unattributed_failure : ℕ → Failure → DecodeProblem

pub record DecodedTransaction : Type 0 where
  pub signature : String
  pub slot : ℕ
  pub block_time : Option ℕ
  pub failed : Bool
  pub events : List IndexedEvent
  pub problems : List DecodeProblem
  pub logs : List String

abbrev pub logs_of : Option TransactionMeta → List String
logs_of none = []
logs_of (some meta) = meta.log_messages

abbrev pub error_of : Option TransactionMeta → Option TransactionError
error_of none = none
error_of (some meta) = meta.err

-- What one instruction adds to the two lists.
pub data Outcome : Type 0 where
  emits : Body → Outcome
  complains : DecodeProblem → Outcome
  silent : Outcome

abbrev pub Lists : Type 0
Lists = List IndexedEvent × List DecodeProblem

module _ (sdk : Sdk) (tx : TransactionRecord) (signature : String) where
  abbrev pub at : LocatedInstruction → Body → IndexedEvent
  at ix body = record {
    signature = signature;
    slot = tx.slot;
    block_time = tx.block_time;
    instruction_index = ix.outer_index;
    position = ix.position;
    body = body;
  }

  abbrev pub emits_if : Option Body → Outcome
  emits_if none = silent
  emits_if (some body) = emits body

  abbrev pub outcome_of_parsed : LocatedInstruction → Option Parsed → Outcome
  outcome_of_parsed ix none = complains (unparsable_instruction ix.outer_index)
  outcome_of_parsed ix (some parsed) = emits_if (from_instruction parsed)

  abbrev pub outcome_of_read : LocatedInstruction → EventReadResult → Outcome
  outcome_of_read ix (event e) = emits (from_event sdk e)
  outcome_of_read ix (unreadable u) = complains (unreadable_event ix.outer_index u)
  outcome_of_read ix not_an_event = outcome_of_parsed ix (sdk.parse ix)

  -- The body of the last loop.
  unfoldable pub outcome : LocatedInstruction → Outcome
  outcome ix = outcome_of_read ix (read_program_event sdk.kit ix.bytes)

  abbrev pub add : LocatedInstruction → Outcome → Lists → Lists
  add ix silent lists = lists
  add ix (emits body) (events, problems) = (at ix body ∷ events, problems)
  add ix (complains problem) (events, problems) = (events, problem ∷ problems)

  unfoldable pub read_all : List LocatedInstruction → Lists
  read_all [] = ([], [])
  read_all (ix ∷ rest) = add ix (outcome ix) (read_all rest)

  abbrev pub attempt_of : Option Parsed → Option ChargeAttempt
  attempt_of none = none
  attempt_of (some parsed) = charge_attempt parsed

  module _ (error : InstructionFailure) (refused_by_us : Bool)
      (existing : Option (List (String × Option String))) (funded : Option (List String)) where
    unfoldable pub refusal : LocatedInstruction → ChargeAttempt → Result DecodeFault IndexedEvent
    refusal ix attempt = do
      authority ← authority_facts sdk attempt.transfer existing funded
      ok (record {
        signature = signature;
        slot = tx.slot;
        block_time = tx.block_time;
        instruction_index = error.instruction_index;
        position = ix.position;
        body =
            rejected attempt.transfer.permission attempt.allowance_kind attempt.transfer.amount
              (record {
                failure = error.failure;
                raised_by = failing_program sdk (logs_of tx.meta);
                token_accounts_existed = existed_of existing attempt.transfer;
                authority = authority;
              });
      })

    abbrev pub add_refusal : IndexedEvent → Lists → Lists
    add_refusal e (events, problems) = (e ∷ events, problems)

    -- One turn of the loop: what it makes of what the rest makes. Without our program's hand in the
    -- failure, the first attempt ends the loop.
    unfoldable pub refuse_step :
        LocatedInstruction
        → Option ChargeAttempt
        → Result DecodeFault Lists
        → Result DecodeFault Lists
    refuse_step ix none more = more
    refuse_step ix (some attempt) more =
        if not refused_by_us
        then ok ([], unattributed_failure error.instruction_index error.failure ∷ [])
        else (refusal ix attempt >>= (λ e. more >>= (λ lists. ok (add_refusal e lists))))

    unfoldable pub refuse_all : List LocatedInstruction → Result DecodeFault Lists
    refuse_all [] = ok ([], [])
    refuse_all (ix ∷ rest) = refuse_step ix (attempt_of (sdk.parse ix)) (refuse_all rest)

  abbrev pub is_outer : LocatedInstruction → Bool
  is_outer ix = not ix.inner

  abbrev pub in_failed : InstructionFailure → LocatedInstruction → Bool
  in_failed error ix = ix.outer_index == error.instruction_index

  unfoldable pub read_failed :
      String → List LocatedInstruction → Option InstructionFailure → Result DecodeFault Lists
  read_failed program ours none = ok ([], [])
  read_failed program ours (some error) = do
    let in_failed_instruction = filter (in_failed error) ours
    let refused_by_us =
        any is_outer in_failed_instruction || any (says_failed program) (logs_of tx.meta)
    existing ← existing_token_accounts sdk tx
    funded ← funded_accounts sdk tx
    refuse_all error refused_by_us existing funded in_failed_instruction

  abbrev pub is_ours : String → LocatedInstruction → Bool
  is_ours program ix = str_eq ix.program_address program

  unfoldable pub lists_of :
      String → List LocatedInstruction → Option TransactionError → Result DecodeFault Lists
  lists_of program ours none = ok (read_all ours)
  lists_of program ours (some err) = read_failed program ours (read_instruction_error err)

  unfoldable pub decode_signed : String → Result DecodeFault DecodedTransaction
  decode_signed program = do
    all ← all_instructions sdk tx
    lists ← lists_of program (filter (is_ours program) all) (error_of tx.meta)
    ok (record {
      signature = signature;
      slot = tx.slot;
      block_time = tx.block_time;
      failed = is_some (error_of tx.meta);
      events = lists.0;
      problems = lists.1;
      logs = logs_of tx.meta;
    })

abbrev pub first_signature : List String → Result DecodeFault String
first_signature [] = throw no_signature
first_signature (s ∷ rest) = ok s

unfoldable pub decode_transaction :
    Sdk → TransactionRecord → String → Result DecodeFault DecodedTransaction
decode_transaction sdk tx program = do
  signature ← first_signature tx.signatures
  decode_signed sdk tx signature program
