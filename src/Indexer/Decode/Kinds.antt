-- ===== src/Indexer/Decode/Kinds.antt =====
-- apps/indexer/src/decode.ts: which kinds of events a transaction has.
use cancel_chain.Common.{◌≡◌, String, Bool, true, false, List, All}
use cancel_chain.Indexer.Decode.{TransactionRecord, Sdk}
use cancel_chain.Indexer.Decode.Bodies.{Body, rejected}
use cancel_chain.Indexer.Decode.Transaction.{IndexedEvent, Outcome, emits, complains, silent}

abbrev pub is_rejection : Body → Bool
is_rejection (rejected allowance kind attempted why) = true
is_rejection _ = false

abbrev pub AreAll : Bool → List IndexedEvent → Type 0
AreAll b = All (λ e. is_rejection e.body ≡ b)

module _ (sdk : Sdk) where
  module _ (tx : TransactionRecord) (signature : String) where
    -- What a successful transaction's instruction adds is no refusal.
    abbrev IsPlain : Outcome → Type 0
    IsPlain (emits body) = is_rejection body ≡ false
    IsPlain (complains problem) = Unit
    IsPlain silent = Unit
