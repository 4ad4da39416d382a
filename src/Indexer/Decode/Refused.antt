-- ===== src/Indexer/Decode/Refused.antt =====
-- apps/indexer/src/decode.ts: which instruction a refused charge is told of.
use cancel_chain.Common.{
  ◌≡◌, ◌⊎◌, refl, any, ◌==◌, ◌&&◌, ◌||◌, not, str_eq, String, Bool, true, false, Option, none, some,
  List, [], ◌∷◌, arith, filter, is_some, All, Result, ok, with_ok, Bool-cases, inl, inr,
}
use cancel_chain.Indexer.Decode.{
  TransactionRecord, TransactionError, LocatedInstruction, Sdk, DecodeFault,
}
use cancel_chain.Indexer.Decode.Logs.{
  InstructionFailure, says_failed, read_instruction_error, existing_token_accounts, funded_accounts,
}
use cancel_chain.Indexer.Decode.Bodies.{ChargeAttempt, authority_facts}
use cancel_chain.Indexer.Decode.Transaction.{
  IndexedEvent, Lists, refusal, refuse_step, refuse_all, is_ours, read_failed, lists_of, error_of,
  logs_of,
}

module _ (tx : TransactionRecord) where
  -- The program's own hand in a failure: its outer instruction failed, or the log says that it did.
  abbrev pub HasFailed : String → List LocatedInstruction → InstructionFailure → Type 0
  HasFailed program all error =
      (any
          (λ ix.
            str_eq ix.program_address program
            && (ix.outer_index == error.instruction_index)
            && not ix.inner)
          all
        ≡ true)
      ⊎ (any (says_failed program) (logs_of tx.meta) ≡ true)

  -- A refusal has an instruction that the transaction's error names, and the program's hand in it.
  abbrev pub IsRefusedBy : String → List LocatedInstruction → List IndexedEvent → Type 0
  IsRefusedBy program all events =
      (events ≡ [])
      ⊎ ((err : TransactionError) × (error_of tx.meta ≡ some err)
          × (error : InstructionFailure) × (read_instruction_error err ≡ some error)
          × HasFailed program all error
          × All (λ e. e.instruction_index ≡ error.instruction_index) events)

module _ (sdk : Sdk) (tx : TransactionRecord) (signature : String) where
  module _ (error : InstructionFailure) (existing : Option (List (String × Option String)))
      (funded : Option (List String)) where
    step-none :
        (ix : LocatedInstruction) (o : Option ChargeAttempt) (more : Result DecodeFault Lists)
        (lists : Lists)
        → ((rest : Lists) → more ≡ ok rest → rest.0 ≡ [])
        → refuse_step sdk tx signature error false existing funded ix o more ≡ ok lists
        → lists.0 ≡ []
    unfolding refuse_step
    step-none ix none more lists h e = h lists e
    step-none ix (some attempt) more lists h e = ground (arith, e)

    refuse_all-none :
        (ixs : List LocatedInstruction) (lists : Lists)
        → refuse_all sdk tx signature error false existing funded ixs ≡ ok lists
        → lists.0 ≡ []
    unfolding refuse_all
    refuse_all-none [] lists e = ground (arith, e)
    refuse_all-none (ix ∷ ixs) lists e =
        step-none ix _ _ lists (λ rest is. refuse_all-none ixs rest is) e

    abbrev Of : List IndexedEvent → Type 0
    Of = All (λ e. e.instruction_index ≡ error.instruction_index)

    refusal-index :
        (by_us : Bool) (ix : LocatedInstruction) (attempt : ChargeAttempt) (e : IndexedEvent)
        → refusal sdk tx signature error by_us existing funded ix attempt ≡ ok e
        → e.instruction_index ≡ error.instruction_index
    unfolding refusal
    refusal-index by_us ix attempt e h =
        with_ok (authority_facts sdk attempt.transfer existing funded) _ h
          λ a _ h1. ground (arith, h1)

    step-index :
        (ix : LocatedInstruction) (o : Option ChargeAttempt) (more : Result DecodeFault Lists)
        (lists : Lists)
        → ((rest : Lists) → more ≡ ok rest → Of rest.0)
        → refuse_step sdk tx signature error true existing funded ix o more ≡ ok lists
        → Of lists.0
    unfolding refuse_step refusal
    step-index ix none more lists h e = h lists e
    step-index ix (some attempt) more lists h e =
        with_ok (refusal sdk tx signature error true existing funded ix attempt) _ e λ r refused e1.
          with_ok more _ e1 λ rest is e2.
            let same : lists.0 ≡ r ∷ rest.0 = ground (arith, e2) in
            rw same (refusal-index true ix attempt r refused, h rest is)

    refuse_all-index :
        (ixs : List LocatedInstruction) (lists : Lists)
        → refuse_all sdk tx signature error true existing funded ixs ≡ ok lists
        → Of lists.0
    unfolding refuse_all
    refuse_all-index [] lists e =
        let none_left : lists.0 ≡ [] = ground (arith, e) in rw none_left tt
    refuse_all-index (ix ∷ ixs) lists e =
        step-index ix _ _ lists (λ rest is. refuse_all-index ixs rest is) e

  outer_lem :
      (program : String) (error : InstructionFailure) (all : List LocatedInstruction)
      → any
          (λ ix. not ix.inner)
          (filter
            (λ ix. ix.outer_index == error.instruction_index)
            (filter (is_ours sdk tx signature program) all))
        ≡ any
            (λ ix.
              str_eq ix.program_address program
              && (ix.outer_index == error.instruction_index)
              && not ix.inner)
            all
  outer_lem program error [] = refl
  outer_lem program error (ix ∷ all) = ground (arith, outer_lem program error all)

  read_failed-IsRefusedBy :
      (program : String) (all : List LocatedInstruction) (err : TransactionError)
      (o : Option InstructionFailure) (lists : Lists)
      → error_of tx.meta ≡ some err
      → read_instruction_error err ≡ o
      → read_failed sdk tx signature program (filter (is_ours sdk tx signature program) all) o
        ≡ ok lists
      → IsRefusedBy tx program all lists.0
  unfolding read_failed
  read_failed-IsRefusedBy program all err none lists failed reads e = inl (ground (arith, e))
  read_failed-IsRefusedBy program all err (some error) lists failed reads e =
      let in_failed =
        filter (λ ix. ix.outer_index == error.instruction_index)
          (filter (is_ours sdk tx signature program) all) in
      let outer = any (λ ix. not ix.inner) in_failed in
      let says = any (says_failed program) (logs_of tx.meta) in
      with_ok (existing_token_accounts sdk tx) _ e λ existing _ e1.
        with_ok (funded_accounts sdk tx) _ e1 λ funded _ e2. elim (Bool-cases (outer || says)) [
          | inr other ↦ inl (refuse_all-none error existing funded in_failed lists (rw other at e2))
          | inl ours ↦ inr (
            err,
            failed,
            error,
            reads,
            ground (arith, ours, outer_lem program error all),
            refuse_all-index error existing funded in_failed lists (rw ours at e2),
          )
        ]

  pub lists_of-IsRefusedBy :
      (program : String) (all : List LocatedInstruction) (o : Option TransactionError)
      (lists : Lists)
      → error_of tx.meta ≡ o
      → is_some o ≡ true
      → lists_of sdk tx signature program (filter (is_ours sdk tx signature program) all) o
        ≡ ok lists
      → IsRefusedBy tx program all lists.0
  unfolding lists_of
  lists_of-IsRefusedBy program all none lists at failed e = absurd (ground (arith, failed))
  lists_of-IsRefusedBy program all (some err) lists at failed e =
      read_failed-IsRefusedBy program all err _ lists at refl e
