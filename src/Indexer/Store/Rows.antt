-- ===== src/Indexer/Store/Rows.antt =====
-- apps/indexer/src/store.ts: the rows of the feed that a transaction's events become.
use cancel_chain.Common.{
  ℕ, String, Bool, false, not, Option, none, some, List, [], ◌∷◌, ◌++◌, if◌then◌else◌, is_some,
  includes, add_to,
}
use cancel_chain.Common.Int.{ℤ}
use cancel_chain.Common.Dict.{get}
use cancel_chain.Shared.Allowance.{Allowance, EventKind, is_revoked}
use cancel_chain.Shared.Reasons.{
  RejectReason, RejectionFacts, Classification, known, classify_rejection,
}
use cancel_chain.Shared.Reasons as Reasons
use cancel_chain.Indexer.Decode.Bodies.{
  Body, Rejection, created, charged, rejected, cancelled, resumed, revoked, plan_updated,
  authority_closed,
}
use cancel_chain.Indexer.Decode.Transaction.{IndexedEvent}
use cancel_chain.Indexer.Store.{
  EventRow, RawLogs, Detail, created_as, received_by, refused_for, authority_closed_by, no_detail,
}

abbrev pub facts_of : Rejection → RejectionFacts
facts_of r = record {
  failure = r.failure;
  raised_by = r.raised_by;
  token_accounts_existed = r.token_accounts_existed;
  authority = some r.authority;
}

abbrev pub reason_of : Classification → Option RejectReason
reason_of (known reason) = some reason
reason_of (Reasons.unknown unmapped) = none

-- `reasonFor`
unfoldable pub reason_for : Rejection → Bool → Option RejectReason
reason_for r is_paused = reason_of (classify_rejection (facts_of r) is_paused)

-- `event.allowance` where the event names a permission.
abbrev pub allowance_of : Body → Option String
allowance_of (created allowance kind owner) = some allowance
allowance_of (charged allowance kind amount receiver) = some allowance
allowance_of (rejected allowance kind attempted why) = some allowance
allowance_of (cancelled allowance stop) = some allowance
allowance_of (resumed allowance) = some allowance
allowance_of (revoked allowance) = some allowance
allowance_of (plan_updated plan status end pullers) = none
allowance_of (authority_closed owner authority) = none

-- The fields that every row of one transaction shares.
pub record Base : Type 0 where
  pub signature : String
  pub slot : ℕ
  pub block_time : ℕ
  pub logs : RawLogs

module _ (base : Base) where
  abbrev pub row :
      (allowance : String) (position : ℕ) (kind : EventKind) (amount : Option ℕ)
      (reason : Option RejectReason) (stop : Option ℤ) (detail : Detail)
      → EventRow
  row allowance position kind amount reason stop detail = record {
    signature = base.signature;
    slot = base.slot;
    block_time = base.block_time;
    allowance_pda = allowance;
    position = position;
    kind = kind;
    amount = amount;
    reason = reason;
    charges_stop_at = stop;
    raw = base.logs;
    detail = detail;
  }

  -- `rowFor` and `detailOf`, with the reason of a refusal; `labelled` are the permissions that are
  -- labelled as paused.
  unfoldable pub rows_for : List String → ℕ → Body → List EventRow
  rows_for labelled position (created allowance kind owner) =
      row allowance position EventKind.created none none none (created_as kind) ∷ []
  rows_for labelled position (charged allowance kind amount receiver) =
      row allowance position EventKind.charged (some amount) none none (received_by receiver) ∷ []
  rows_for labelled position (rejected allowance kind attempted why) =
      row allowance position EventKind.rejected (some attempted)
        (reason_for why (includes labelled allowance)) none (refused_for (facts_of why))
      ∷ []
  rows_for labelled position (cancelled allowance stop) =
      row allowance position EventKind.cancelled none none (some stop) no_detail ∷ []
  rows_for labelled position (resumed allowance) =
      row allowance position EventKind.resumed none none none no_detail ∷ []
  rows_for labelled position (revoked allowance) =
      row allowance position EventKind.revoked none none none no_detail ∷ []
  rows_for labelled position (plan_updated plan status end pullers) = []
  rows_for labelled position (authority_closed owner authority) = []

  unfoldable pub direct_rows : List String → List IndexedEvent → List EventRow
  direct_rows labelled [] = []
  direct_rows labelled (e ∷ es) = rows_for labelled e.position e.body ++ direct_rows labelled es

  unfoldable pub closed_rows : ℕ → String → List String → List EventRow
  closed_rows position authority [] = []
  closed_rows position authority (pda ∷ pdas) =
      row pda position EventKind.revoked none none none (authority_closed_by authority)
      ∷ closed_rows position authority pdas

  -- `underClosed`: the permissions that one event's authority took down.
  abbrev pub authority_row : (String → String → List String) → ℕ → Body → List EventRow
  authority_row under position (authority_closed owner authority) =
      closed_rows position authority (under owner authority)
  authority_row under position _ = []

  unfoldable pub authority_rows :
      (String → String → List String) → List IndexedEvent → List EventRow
  authority_rows under [] = []
  authority_rows under (e ∷ es) = authority_row under e.position e.body ++ authority_rows under es

-- `rejected` events' permissions.
unfoldable pub rejected_pdas : List IndexedEvent → List String
rejected_pdas [] = []
rejected_pdas (e ∷ es) = elim e.body [
  | rejected allowance kind attempted why ↦ allowance ∷ rejected_pdas es
  | _ ↦ rejected_pdas es
]

-- `pausedAmong`
unfoldable pub paused_among : List (String × Allowance) → List String → List String
paused_among rows [] = []
paused_among rows (pda ∷ pdas) = elim (get pda rows) [
  | none ↦ paused_among rows pdas
  | some stored ↦
      if is_some stored.paused_at then pda ∷ paused_among rows pdas else paused_among rows pdas
]

-- `[...new Set(...)]` of the permissions that the events name.
unfoldable pub touched : List String → List IndexedEvent → List String
touched seen [] = seen
touched seen (e ∷ es) = elim (allowance_of e.body) [
  | none ↦ touched seen es
  | some allowance ↦ touched (add_to seen allowance) es
]

-- The live subscriptions on the plans that the events update.
abbrev pub is_on : List String → Allowance → Bool
is_on plans a = elim a.plan_pda [
  | none ↦ false
  | some plan ↦ if includes plans plan then not (is_revoked a.status) else false
]

unfoldable pub updated_plans : List IndexedEvent → List String
updated_plans [] = []
updated_plans (e ∷ es) = elim e.body [
  | plan_updated plan status end pullers ↦ plan ∷ updated_plans es
  | _ ↦ updated_plans es
]

unfoldable pub on_plans : List String → List (String × Allowance) → List String
on_plans plans [] = []
on_plans plans ((pda, a) ∷ rows) =
    if is_on plans a then pda ∷ on_plans plans rows else on_plans plans rows

unfoldable pub under_closed : (String → String → List String) → List IndexedEvent → List String
under_closed under [] = []
under_closed under (e ∷ es) = elim e.body [
  | authority_closed owner authority ↦ under owner authority ++ under_closed under es
  | _ ↦ under_closed under es
]
