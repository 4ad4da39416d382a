-- ===== src/Chain/Tests/Revoking.antt =====
-- Cancelling a subscription, and closing it when it has ended.
use cancel_chain.Common.{◌≡◌, refl, String, Bool, true, none, some, inl, ok}
use cancel_chain.Shared.Allowance.{subscription}
use cancel_chain.Chain.Revoke.{
  revoke_action_for, Subscription, SubscriptionCancelWindow, subscription_cancel_window,
  RevokeTarget, revoke_subscription, build_revoke_instruction, close_of_subscription,
}
use cancel_chain.Chain.Revoke.Window.{IsWindow, subscription_cancel_window-IsWindow}
use cancel_chain.Chain.Revoke.Actions.{
  MayClose, build_revoke_guarded, IsPrepared, IsTaken, build_total,
}

abbrev valid : String → Bool
valid key = true

abbrev monthly : Subscription
monthly = record {
  period_seconds = 2_592_000;
  period_started_at = 1_790_000_000_000;
  cap = 5_000_000;
  spent_in_period = 1_000_000;
}

abbrev second_period : SubscriptionCancelWindow
second_period = record {
  ends_no_later_than = 1_795_184_000_000;
  current_period_started_at = 1_792_592_000_000;
  charged_this_period = 0;
  still_chargeable = 5_000_000;
}

shown : subscription_cancel_window monthly 1_793_000_000_000 ≡ ok second_period
unfolding subscription_cancel_window
shown = refl

subscription_cancel_window-IsWindow_example : IsWindow monthly 1_793_000_000_000 second_period
subscription_cancel_window-IsWindow_example =
    subscription_cancel_window-IsWindow monthly 1_793_000_000_000 second_period shown

abbrev ended : RevokeTarget
ended = record {
  kind = subscription;
  owner = "owner";
  pda = "permission";
  plan_pda = some "plan";
  ends_at = some 1_000;
}

closes :
    build_revoke_instruction valid ended "owner" none 2_000
    ≡ ok (revoke_subscription "owner" "plan" "permission" none)
unfolding build_revoke_instruction close_of_subscription revoke_action_for
closes = refl

build_revoke_guarded_example : (ended.owner ≡ ended.owner) × MayClose valid ended "owner" 2_000
build_revoke_guarded_example =
    build_revoke_guarded valid ended "owner" none 2_000
      (revoke_subscription "owner" "plan" "permission" none) closes

prepared : IsPrepared valid ended "owner"
prepared = record {
  pda_ok = refl;
  owner_ok = refl;
  signs = refl;
  plan_ok = inl (refl, "plan", refl, refl);
}

build_total_example :
    IsTaken valid ended "owner" 500 (revoke_action_for subscription (some 1_000) 500)
build_total_example = build_total valid ended "owner" 500 prepared
