-- ===== src/Shared/Event.antt =====
-- packages/shared/src/allowance.ts: the shape of an event of the feed, and its schema.
use cancel_chain.Common.{
  ℕ, String, Bool, true, false, not, ◌&&◌, Option, List, [], ◌∷◌, ◌++◌, leb, if◌then◌else◌, is_some,
  is_none, Result, ok, throw, length, all,
}
use cancel_chain.Shared.Primitives.{u64_max, is_address, is_base58, codes, max_safe_integer}
use cancel_chain.Shared.Allowance.{
  EventKind, is_rejected, is_cancelled, is_charged, Issue, add_issue, only_cancellation_says_stop,
  only_rejection_has_reason, charge_says_amount, SchemaError, bad_field, issues, all_or_none,
  timestamp_ok, max_timestamp,
}
use cancel_chain.Shared.Reasons.{RejectReason}

-- `id` and `amount` stand for their decimal text, moments for their ISO text.
pub record AllowanceEvent : Type 0 where
  pub id : ℕ
  pub allowance_pda : String
  pub kind : EventKind
  pub amount : Option ℕ
  pub reason : Option RejectReason
  pub signature : String
  pub slot : ℕ
  pub block_time : ℕ
  pub charges_stop_at : Option ℕ

-- `BASE58_SIGNATURE`
unfoldable pub is_signature : String → Bool
is_signature s = all is_base58 (codes s) && leb 86 (length (codes s)) && leb (length (codes s)) 88

unfoldable pub event_fields_ok : AllowanceEvent → Bool
event_fields_ok e =
    leb e.id u64_max
    && is_address e.allowance_pda
    && all_or_none (λ a. leb a u64_max) e.amount
    && is_signature e.signature
    && leb e.slot max_safe_integer
    && leb e.block_time max_timestamp
    && timestamp_ok e.charges_stop_at

abbrev pub differ : Bool → Bool → Bool
differ true b = not b
differ false b = b

unfoldable pub check_event : AllowanceEvent → List Issue
check_event e =
    add_issue (differ (is_cancelled e.kind) (is_some e.charges_stop_at)) only_cancellation_says_stop
    ++ (add_issue (is_some e.reason && not (is_rejected e.kind)) only_rejection_has_reason
        ++ add_issue (is_charged e.kind && is_none e.amount) charge_says_amount)

abbrev pub accept_event : AllowanceEvent → List Issue → Result SchemaError AllowanceEvent
accept_event e [] = ok e
accept_event e (i ∷ is) = throw (issues (i ∷ is))

-- `eventSchema.parse`
unfoldable pub event_schema : AllowanceEvent → Result SchemaError AllowanceEvent
event_schema e = if event_fields_ok e then accept_event e (check_event e) else throw bad_field
