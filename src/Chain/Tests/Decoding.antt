-- ===== src/Chain/Tests/Decoding.antt =====
-- Accounts decoded and converted.
use cancel_chain.Common.{◌≡◌, refl, none, some, arith, ok}
use cancel_chain.Shared.Primitives.{is_address}
use cancel_chain.Shared.Allowance.{
  AllowanceKind, active, Allowance, allowance_schema, fields_ok, check_allowance,
}
use cancel_chain.Chain.Decode.{
  recurring, timestamp_from_chain, to_allowance, to_allowance_recurring, derive_status, amount_of,
  period_seconds_from_chain,
}
use cancel_chain.Chain.Decode.Convert.{IsCardOf, to_allowance-IsCardOf}
use cancel_chain.Chain.Decode.Total.{IsFresh, IsReadable, to_allowance_total}
use cancel_chain.Chain.Tests.{wallet, merchant, permission, recurring_account, sdk, context}

fresh : IsFresh context
fresh = (omega arith, omega arith)

readable : IsReadable sdk context (recurring permission recurring_account)
unfolding is_address
readable = (
  (refl, refl, refl, refl),
  refl,
  omega arith,
  omega arith,
  (omega arith, omega arith),
  omega arith,
  omega arith,
)

to_allowance_total_example :
    (a : Allowance) × (to_allowance sdk context (recurring permission recurring_account) ≡ ok a)
to_allowance_total_example =
    to_allowance_total sdk context (recurring permission recurring_account) fresh readable

abbrev recurring_card : Allowance
recurring_card = record {
  pda = permission;
  owner = wallet;
  delegate = merchant;
  mint = wallet;
  kind = AllowanceKind.recurring;
  cap_amount = 5_000_000;
  period_seconds = some 86_400;
  spent_in_period = 1_000_000;
  period_started_at = some 1_790_000_000_000;
  expires_at = none;
  paused_at = none;
  ends_at = none;
  status = active;
  plan_pda = none;
  last_slot = 414_000_000;
  synced_at = 1_790_001_000_000;
}

converted : to_allowance sdk context (recurring permission recurring_account) ≡ ok recurring_card
unfolding to_allowance to_allowance_recurring derive_status amount_of period_seconds_from_chain
    timestamp_from_chain allowance_schema fields_ok check_allowance is_address
converted = refl

to_allowance-IsCardOf_example :
    IsCardOf (recurring permission recurring_account) 1_790_001_000_000 recurring_card
    × (recurring_card.cap_amount ≡ 5_000_000)
    × (recurring_card.spent_in_period ≡ 1_000_000)
to_allowance-IsCardOf_example =
    to_allowance-IsCardOf sdk context (recurring permission recurring_account) recurring_card
      converted
