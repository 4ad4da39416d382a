-- ===== src/Indexer/Decode/Positions.antt =====
-- apps/indexer/src/decode.ts: where a transaction's events stand in it.
use cancel_chain.Common.{
  ℕ, suc, ◌≤◌, ◌≡◌, String, Bool, Option, none, some, List, [], ◌∷◌, map, arith, filter, Result, ok,
  throw, ◌>>=◌, get_elem?, with_ok, Bool-cases, inl, inr,
}
use cancel_chain.Indexer.Decode.{
  TransactionRecord, TransactionError, LocatedInstruction, Placed, AccountMeta, Sdk, DecodeFault,
  locate, required, metas_at, locate_all, all_instructions, account_table, placed_from, inners_of,
}
use cancel_chain.Indexer.Decode.Logs.{
  InstructionFailure, read_instruction_error, existing_token_accounts, funded_accounts,
}
use cancel_chain.Indexer.Decode.Bodies.{ChargeAttempt, authority_facts}
use cancel_chain.Indexer.Decode.Transaction.{
  IndexedEvent, DecodedTransaction, Outcome, emits, complains, silent, Lists, outcome, add,
  read_all, refusal, refuse_step, refuse_all, in_failed, is_ours, read_failed, lists_of,
  decode_signed, first_signature, decode_transaction, error_of,
}

-- Numbers that rise strictly, from `low` on.
abbrev pub Rising : ℕ → List ℕ → Type 0
Rising low [] = Unit
Rising low (p ∷ ps) = (low ≤ p) × Rising (suc p) ps

Rising-lower : (low lower : ℕ) (ps : List ℕ) → lower ≤ low → Rising low ps → Rising lower ps
Rising-lower low lower [] p h = tt
Rising-lower low lower (q ∷ ps) p (r, h) = (omega arith, h)

abbrev place : LocatedInstruction → ℕ
place ix = ix.position

abbrev pub event_place : IndexedEvent → ℕ
event_place e = e.position

filter-Rising :
    (keep : LocatedInstruction → Bool) (low : ℕ) (ixs : List LocatedInstruction)
    → Rising low (map place ixs)
    → Rising low (map place (filter keep ixs))
filter-Rising keep low [] h = tt
filter-Rising keep low (ix ∷ ixs) (p, h) = elim (Bool-cases (keep ix)) [
  | inl kept ↦ rw kept (p, filter-Rising keep (suc ix.position) ixs h)
  | inr left ↦ rw left (
      Rising-lower (suc ix.position) low _ (omega arith)
        (filter-Rising keep (suc ix.position) ixs h))
]

module _ (sdk : Sdk) where
  locate-position :
      (p : Placed) (table : List AccountMeta) (n : ℕ) (ix : LocatedInstruction)
      → locate sdk p.compiled table p.outer_index p.inner n ≡ ok ix
      → ix.position ≡ n
  unfolding locate
  locate-position p table n ix h =
      with_ok (required sdk (get_elem? table p.compiled.program_id_index)) _ h
        λ program _ h1. metas-position (metas_at sdk table p.compiled.accounts) program h1
    where
      metas-position :
          (metas : Result DecodeFault (List AccountMeta)) (program : AccountMeta)
          → (metas >>= (λ accounts. ok (record {
            outer_index = p.outer_index;
            position = n;
            inner = p.inner;
            program_address = program.address;
            accounts = accounts;
            bytes = sdk.base58 p.compiled.data_text;
          })))
            ≡ ok ix
          → ix.position ≡ n
      metas-position (ok metas) program e = ground (arith, e)
      metas-position (throw fault) program e = absurd (ground (arith, e))

  locate_all-Rising :
      (table : List AccountMeta) (n : ℕ) (ps : List Placed) (ixs : List LocatedInstruction)
      → locate_all sdk table n ps ≡ ok ixs
      → Rising n (map place ixs)
  unfolding locate_all
  locate_all-Rising table n [] ixs h = let none_left : ixs ≡ [] = ground arith in rw none_left tt
  locate_all-Rising table n (p ∷ ps) ixs h =
      with_ok (locate sdk p.compiled table p.outer_index p.inner n) _ h λ ix located h1.
        with_ok (locate_all sdk table (suc n) ps) _ h1 λ rest more h2.
          let same : ixs ≡ ix ∷ rest = ground (arith, h2) in
          let here = locate-position p table n ix located in
          rw same (omega (arith, here), rw here (locate_all-Rising table (suc n) ps rest more))

  all_instructions-Rising :
      (tx : TransactionRecord) (ixs : List LocatedInstruction)
      → all_instructions sdk tx ≡ ok ixs
      → Rising 0 (map place ixs)
  unfolding all_instructions
  all_instructions-Rising tx ixs h = with_ok (account_table sdk tx) _ h λ table _ h1.
      locate_all-Rising table 0 (placed_from (inners_of tx.meta) 0 tx.instructions) ixs h1

  module _ (tx : TransactionRecord) (signature : String) where
    add-Rising :
        (low : ℕ) (ix : LocatedInstruction) (o : Outcome) (lists : Lists)
        → low ≤ ix.position
        → Rising (suc ix.position) (map event_place lists.0)
        → Rising low (map event_place (add sdk tx signature ix o lists).0)
    add-Rising low ix silent lists p h = Rising-lower (suc ix.position) low _ (omega arith) h
    add-Rising low ix (complains problem) lists p h =
        Rising-lower (suc ix.position) low _ (omega arith) h
    add-Rising low ix (emits body) lists p h = (p, h)

    read_all-Rising :
        (low : ℕ) (ixs : List LocatedInstruction)
        → Rising low (map place ixs)
        → Rising low (map event_place (read_all sdk tx signature ixs).0)
    unfolding read_all
    read_all-Rising low [] h = tt
    read_all-Rising low (ix ∷ ixs) (p, h) =
        add-Rising low ix (outcome sdk tx signature ix) (read_all sdk tx signature ixs) p
          (read_all-Rising (suc ix.position) ixs h)

    refusal-position :
        (error : InstructionFailure) (by_us : Bool)
        (existing : Option (List (String × Option String))) (funded : Option (List String))
        (ix : LocatedInstruction) (attempt : ChargeAttempt) (e : IndexedEvent)
        → refusal sdk tx signature error by_us existing funded ix attempt ≡ ok e
        → e.position ≡ ix.position
    unfolding refusal
    refusal-position error by_us existing funded ix attempt e h =
        with_ok (authority_facts sdk attempt.transfer existing funded) _ h
          λ a _ h1. ground (arith, h1)

    module _ (error : InstructionFailure) (by_us : Bool)
        (existing : Option (List (String × Option String))) (funded : Option (List String)) where
      refuse_step-Rising :
          (low : ℕ) (ix : LocatedInstruction) (o : Option ChargeAttempt)
          (more : Result DecodeFault Lists) (lists : Lists)
          → low ≤ ix.position
          → ((rest : Lists) → more ≡ ok rest → Rising (suc ix.position) (map event_place rest.0))
          → refuse_step sdk tx signature error by_us existing funded ix o more ≡ ok lists
          → Rising low (map event_place lists.0)
      unfolding refuse_step refusal
      refuse_step-Rising low ix none more lists p h e =
          Rising-lower (suc ix.position) low _ (omega arith) (h lists e)
      refuse_step-Rising low ix (some attempt) more lists p h e = elim (Bool-cases by_us) [
        | inr other ↦ let none_left : lists.0 ≡ [] = ground (arith, other, e) in rw none_left tt
        | inl ours ↦
            with_ok (refusal sdk tx signature error by_us existing funded ix attempt) _
              (rw ours at e)
              λ r refused e1. with_ok more _ e1 λ rest is e2.
                let same : lists.0 ≡ r ∷ rest.0 = ground (arith, e2) in
                let here = refusal-position error by_us existing funded ix attempt r refused in
                rw same (omega (arith, here), rw here (h rest is))
      ]

      refuse_all-Rising :
          (low : ℕ) (ixs : List LocatedInstruction) (lists : Lists)
          → Rising low (map place ixs)
          → refuse_all sdk tx signature error by_us existing funded ixs ≡ ok lists
          → Rising low (map event_place lists.0)
      unfolding refuse_all
      refuse_all-Rising low [] lists h e =
          let none_left : lists.0 ≡ [] = ground (arith, e) in rw none_left tt
      refuse_all-Rising low (ix ∷ ixs) lists (p, h) e =
          refuse_step-Rising low ix _ _ lists p
            (λ rest is. refuse_all-Rising (suc ix.position) ixs rest h is) e

    read_failed-Rising :
        (program : String) (ours : List LocatedInstruction) (o : Option InstructionFailure)
        (lists : Lists)
        → Rising 0 (map place ours)
        → read_failed sdk tx signature program ours o ≡ ok lists
        → Rising 0 (map event_place lists.0)
    unfolding read_failed
    read_failed-Rising program ours none lists h e =
        let none_left : lists.0 ≡ [] = ground (arith, e) in rw none_left tt
    read_failed-Rising program ours (some error) lists h e =
        with_ok (existing_token_accounts sdk tx) _ e λ existing _ e1.
          with_ok (funded_accounts sdk tx) _ e1 λ funded _ e2.
            refuse_all-Rising error _ existing funded 0 _ lists
              (filter-Rising (in_failed sdk tx signature error) 0 ours h) e2

    lists_of-Rising :
        (program : String) (ours : List LocatedInstruction) (o : Option TransactionError)
        (lists : Lists)
        → Rising 0 (map place ours)
        → lists_of sdk tx signature program ours o ≡ ok lists
        → Rising 0 (map event_place lists.0)
    unfolding lists_of
    lists_of-Rising program ours none lists h e =
        let same : lists ≡ read_all sdk tx signature ours = ground (arith, e) in
        rw same (read_all-Rising 0 ours h)
    lists_of-Rising program ours (some err) lists h e =
        read_failed-Rising program ours (read_instruction_error err) lists h e

  -- The events of one transaction stand at strictly rising positions in it: no two of them share
  -- one, so a signature and a position name an event.
  pub decode_transaction-Rising :
      (tx : TransactionRecord) (program : String) (r : DecodedTransaction)
      → decode_transaction sdk tx program ≡ ok r
      → Rising 0 (map event_place r.events)
  unfolding decode_transaction decode_signed
  decode_transaction-Rising tx program r h =
      with_ok (first_signature tx.signatures) _ h λ signature _ h1.
        with_ok (all_instructions sdk tx) _ h1 λ all located h2.
          with_ok
            (lists_of sdk tx signature program (filter (is_ours sdk tx signature program) all)
              (error_of tx.meta))
            _ h2
            λ lists is h3.
              let same : r.events ≡ lists.0 = ground (arith, h3) in
              rw same (
                lists_of-Rising tx signature program _ (error_of tx.meta) lists
                  (filter-Rising (is_ours sdk tx signature program) 0 all
                    (all_instructions-Rising tx all located))
                  is)
