-- ===== src/Api/Tests.antt =====
-- Runs of the service's parts.
mod Feeding
mod Streaming
use cancel_chain.Common.{
  ℕ, ◌+◌, ◌≤◌, ◌<◌, ◌≡◌, ◌≢◌, ◌↔◌, inr, refl, String, Bool, true, false, none, some, List, [], ◌∷◌,
  arith, All, ◌==◌, if◌then◌else◌,
}
use cancel_chain.Common.Dict.{get, set}
use cancel_chain.Shared.Allowance.{subscription, active, paused, Allowance}
use cancel_chain.Shared.Allowance.WellFormed.{IsWellFormed}
use cancel_chain.Chain.Read.Cards.{ReadAllowance}
use cancel_chain.Api.RateLimit.{Limiter, Request, run, handle, passed}
use cancel_chain.Api.RateLimit.Windows.{alive_count, accepted, InOrder}
use cancel_chain.Api.RateLimit.Limit.{accepted-bounded, handle-passes_iff}
use cancel_chain.Api.Auth.{SignInMessage, Attempt, attempts, verify_sign_in, claim, forget}
use cancel_chain.Api.Auth.Once.{verify_sign_in-once, verify_sign_in-twice}
use cancel_chain.Api.Card as Card
use cancel_chain.Api.Card.{
  AllowanceCard, chain_state_of, reconcile, read_at_least, diverges, comparable_status,
}
use cancel_chain.Api.Card.Reconcile.{
  reconcile-live, reconcile-IsWellFormed, IsAgreed, reconcile-diverged_iff,
}
use cancel_chain.Api.Card.Behind.{Ends, read_at_least-Ends}

abbrev two_a_minute : Limiter
two_a_minute = record { limit = 2; window_ms = 60_000 }

abbrev at_moment : ℕ → Request
at_moment ms = record { key = "client"; at = ms }

abbrev three : List Request
three = at_moment 30_000 ∷ at_moment 20_000 ∷ at_moment 10_000 ∷ []

three-InOrder : InOrder three
three-InOrder = ((omega arith, (omega arith, tt)), ((omega arith, tt), (tt, tt)))

three-before : All (λ q. q.at ≤ 40_000) three
three-before = (omega arith, (omega arith, (omega arith, tt)))

accepted-bounded_example :
    alive_count 60_000 40_000 (accepted "client" (run two_a_minute three).1) ≤ 2
accepted-bounded_example =
    accepted-bounded two_a_minute (omega arith) 40_000 "client" three three-before three-InOrder

abbrev fourth : Request
fourth = at_moment 80_000

four-InOrder : InOrder (fourth ∷ three)
four-InOrder = ((omega arith, (omega arith, (omega arith, tt))), three-InOrder)

abbrev genuine : SignInMessage → String → Bool
genuine message by = true

abbrev signed_at : ℕ → SignInMessage
signed_at ms = record { domain = "merchant"; address = "wallet"; nonce = "nonce"; issued_at = ms }

abbrev other : Attempt genuine "merchant"
other = record { message = signed_at 1_500; by = "by"; at = 1_800 }

first : (verify_sign_in genuine "merchant" [] (signed_at 1_000) "by" 1_500).1 ≡ none
unfolding verify_sign_in claim forget get set
first = refl

verify_sign_in-once_example :
    (verify_sign_in genuine "merchant"
      (attempts genuine "merchant"
        (verify_sign_in genuine "merchant" [] (signed_at 1_000) "by" 1_500).0
        (other ∷ []))
      (signed_at 1_000)
      "by"
      2_000).1
    ≢ none
verify_sign_in-once_example =
    verify_sign_in-once genuine "merchant" [] (signed_at 1_000) "by" "by" 1_500 2_000 (other ∷ [])
      first (omega arith) (omega arith, tt)

verify_sign_in-twice_example :
    ((verify_sign_in genuine "merchant" [] (signed_at 1_060_000) "by" 1_000_000).1 ≡ none)
    × ((verify_sign_in genuine "merchant"
          (verify_sign_in genuine "merchant" [] (signed_at 1_060_000) "by" 1_000_000).0
          (signed_at 1_060_000)
          "by"
          (1_000_000 + 120_000)).1
        ≡ none)
verify_sign_in-twice_example =
    verify_sign_in-twice genuine "merchant" (signed_at 1_060_000) "by" 1_000_000 refl refl
      (omega arith) (omega arith)

abbrev on_chain : Allowance
on_chain = record {
  pda = "permission";
  owner = "wallet";
  delegate = "merchant";
  mint = "usdc";
  kind = subscription;
  cap_amount = 5_000_000;
  period_seconds = some 2_592_000;
  spent_in_period = 0;
  period_started_at = some 1_790_000_000_000;
  expires_at = none;
  paused_at = none;
  ends_at = none;
  status = active;
  plan_pda = some "plan";
  last_slot = 500;
  synced_at = 1_790_001_000_000;
}

abbrev in_store : Allowance
in_store = record on_chain { status = paused; paused_at = some 1_790_000_500_000; last_slot = 400 }

on_chain-IsWellFormed : IsWellFormed on_chain
on_chain-IsWellFormed = record {
  has_period = refl;
  start_needs_period = λ _. λ e. ground arith;
  pause_of_subscription = λ h. refl;
  end_of_subscription = λ h. refl;
  pause_is_status = refl;
}

in_store-IsWellFormed : IsWellFormed in_store
in_store-IsWellFormed = record {
  has_period = refl;
  start_needs_period = λ _. λ e. ground arith;
  pause_of_subscription = λ h. refl;
  end_of_subscription = λ h. refl;
  pause_is_status = refl;
}

abbrev read_now : ReadAllowance
read_now = record { allowance = on_chain; asset_supported = true }

abbrev paused_card : AllowanceCard
paused_card = record {
  allowance = record on_chain { status = paused; paused_at = some 1_790_000_500_000 };
  chain_state = some (record {
    status = active;
    cap_amount = 5_000_000;
    spent_in_period = 0;
    period_started_at = some 1_790_000_000_000;
    paused_at = none;
    ends_at = none;
    slot = 500;
  });
  diverged = false;
  asset_supported = true;
}

reconciled : reconcile (some in_store) (some read_now) 500 "usdc" ≡ some paused_card
unfolding reconcile diverges comparable_status chain_state_of
reconciled = refl

reconcile-live_example :
    (c : ReadAllowance) × (some read_now ≡ some c) × (c.allowance.status ≡ active)
reconcile-live_example =
    reconcile-live (some in_store) (some read_now) 500 "usdc" paused_card
      (on_chain-IsWellFormed, refl) reconciled (inr refl)

abbrev third_time : ℕ → Card.Attempt String ℕ
third_time n = if n == 3 then Card.done 7 else Card.behind
