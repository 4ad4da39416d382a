-- ===== src/Shared/Tests.antt =====
-- Runs of the shared code on concrete values.
use cancel_chain.Common.{
  List, ◌∷◌, ◌++◌, ◌+◌, ◌*◌, ◌^◌, length, ℕ, ◌≤◌, ◌≡◌, ◌↔◌, if◌then◌else◌, str_eq, refl, String,
  true, false, Option, none, some, [], ok,
}
use cancel_chain.Shared.Primitives.{print, is_address, from_u64, u64_schema, codes}
use cancel_chain.Shared.Period.{period_hours_from_seconds, period_seconds_from_hours}
use cancel_chain.Shared.Allowance.{
  subscription, paused, Allowance, check_allowance, fields_ok, allowance_schema,
}
use cancel_chain.Shared.Allowance.WellFormed.{IsWellFormed, check_allowance_iff}
use cancel_chain.Shared.Reasons.{
  merchant_account_missing, custom, Existed, RejectionFacts, known, subscriptions_program,
  missing_account, classify_code, classify_rejection,
}
use cancel_chain.Shared.Format.{scale_amount, shown_fraction, fraction_digits, trim_end, digits}
use cancel_chain.Shared.Format.Exact.{AreDigits, value, scale_amount-value}
use cancel_chain.Shared.PlanView.{PlanTerms}

abbrev wallet : String
wallet = "11111111111111111111111111111112"

abbrev paused_card : Allowance
paused_card = record {
  pda = wallet;
  owner = wallet;
  delegate = wallet;
  mint = wallet;
  kind = subscription;
  cap_amount = 5_000_000;
  period_seconds = some 2_592_000;
  spent_in_period = 1_000_000;
  period_started_at = some 1_790_000_000_000;
  expires_at = none;
  paused_at = some 1_790_000_500_000;
  ends_at = some 1_792_000_000_000;
  status = paused;
  plan_pda = some wallet;
  last_slot = 414_000_000;
  synced_at = 1_790_001_000_000;
}

typed : fields_ok paused_card ≡ true
unfolding fields_ok is_address
typed = refl

clean : check_allowance paused_card ≡ []
unfolding check_allowance
clean = refl

accepted : allowance_schema paused_card ≡ ok paused_card
unfolding allowance_schema fields_ok check_allowance is_address
accepted = refl

printed : from_u64 1_205 ≡ ok (codes "1205")
unfolding from_u64
printed = refl

is_amount : u64_schema (codes "18446744073709551615") ≡ true
unfolding u64_schema
is_amount = refl

in_seconds : period_seconds_from_hours 720 ≡ ok 2_592_000
unfolding period_seconds_from_hours
in_seconds = refl

in_hours : period_hours_from_seconds 2_592_000 ≡ ok 720
unfolding period_hours_from_seconds
in_hours = refl

check_allowance_iff_example : (check_allowance paused_card ≡ []) ↔ IsWellFormed paused_card
check_allowance_iff_example = check_allowance_iff paused_card

well_formed : IsWellFormed paused_card
well_formed = (check_allowance_iff paused_card).0 clean

abbrev only_source : Existed
only_source = record { source = true; destination = false }

abbrev raised_by_ours : ℕ → RejectionFacts
raised_by_ours code = record {
  failure = custom code;
  raised_by = some subscriptions_program;
  token_accounts_existed = some only_source;
  authority = none;
}

no_account : classify_rejection (raised_by_ours 110) false ≡ known merchant_account_missing
unfolding classify_rejection classify_code missing_account
no_account = refl

abbrev date_parse : String → Option ℕ
date_parse date =
    if str_eq date "2026-10-01T00:00:00.000Z"
    then some 1_790_812_800_000
    else if str_eq date "2026-10-01T00:00:00Z"
    then some 1_790_812_800_000
    else none

abbrev asked : PlanTerms
asked = record {
  mint = wallet;
  amount = "5000000";
  period_seconds = 2_592_000;
  created_at = some "2026-10-01T00:00:00.000Z";
}

abbrev actual : PlanTerms
actual = record {
  mint = wallet;
  amount = "9000000";
  period_seconds = 2_592_000;
  created_at = some "2026-10-01T00:00:00Z";
}

scale_amount-value_example :
    (whole : List ℕ) × (fraction : List ℕ) × (scale_amount 12_345_600 6 ≡ whole ++ (46 ∷ fraction))
    × (AreDigits whole × AreDigits fraction × (2 ≤ length fraction))
    × ((value whole * 10 ^ length fraction + value fraction) * 10 ^ 6
        ≡ 12_345_600 * 10 ^ length fraction)
scale_amount-value_example = scale_amount-value 12_345_600 5

shows : scale_amount 12_345_600 6 ≡ codes "12.3456"
unfolding scale_amount shown_fraction fraction_digits trim_end digits print
shows = refl
