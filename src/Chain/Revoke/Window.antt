-- ===== src/Chain/Revoke/Window.antt =====
-- packages/chain/src/revoke.ts: the window that is shown before a subscription is cancelled.
use cancel_chain.Common.{
  ℕ, ◌+◌, ◌-◌, ◌*◌, ◌/◌, ◌≤◌, ◌<◌, ◌≡◌, ◌⊎◌, inl, inr, refl, arith, ok, Bool-cases, ◌==◌, ltb,
  ltb→lt,
}
use cancel_chain.Chain.Revoke.{
  Subscription, SubscriptionCancelWindow, periods_elapsed, window_at, subscription_cancel_window,
}

-- The shown window is a whole period of the subscription: it lies a whole number of periods after
-- the recorded start, and the moment of the question lies in it, unless the recorded period starts
-- later still.
pub record IsWindow (s : Subscription) (now : ℕ) (w : SubscriptionCancelWindow) : Type 0 where
  pub whole_periods :
      (n : ℕ) × (w.current_period_started_at
        ≡ (s.period_started_at / 1000 + n * s.period_seconds) * 1000)
  pub one_period : w.ends_no_later_than ≡ w.current_period_started_at + s.period_seconds * 1000
  pub not_over : now < w.ends_no_later_than
  pub counted :
      ((now / 1000 < s.period_started_at / 1000 + s.period_seconds)
        × (w.charged_this_period ≡ s.spent_in_period))
      ⊎ ((s.period_started_at / 1000 + s.period_seconds ≤ now / 1000) × (w.charged_this_period ≡ 0))
  pub left : w.still_chargeable ≡ s.cap - w.charged_this_period
  pub begun : (now / 1000 < s.period_started_at / 1000) ⊎ (w.current_period_started_at ≤ now)

div_floor : (a b : ℕ) → 0 < b → (a / b * b ≤ a) × (a < a / b * b + b)
div_floor a b h = grind arith

div_below : (a b : ℕ) → a < b → a / b ≡ 0
div_below a b h = grind arith

div_above : (a b : ℕ) → 0 < b → b ≤ a → 0 < a / b
div_above a b h k = grind arith

window_at-IsWindow :
    (s : Subscription) (now : ℕ)
    → 0 < s.period_seconds
    → IsWindow s now (window_at s now (periods_elapsed s now))
unfolding window_at periods_elapsed
window_at-IsWindow s now h =
    let passed = now / 1000 - s.period_started_at / 1000 in
    let (low, high) = div_floor passed s.period_seconds h in
    record {
      whole_periods = (passed / s.period_seconds, refl);
      one_period = omega arith;
      not_over = omega arith;
      counted = elim (Bool-cases (ltb passed s.period_seconds)) [
        | inl within ↦ inl (
          omega (arith, ltb→lt _ _ within),
          ground (arith, div_below passed s.period_seconds (ltb→lt _ _ within)),
        )
        | inr beyond ↦
            inr (ground arith, ground (arith, div_above passed s.period_seconds h (ground arith)))
      ];
      left = refl;
      begun = elim (Bool-cases (ltb (now / 1000) (s.period_started_at / 1000))) [
        | inl later ↦ inl (ltb→lt _ _ later)
        | inr started ↦ inr (ground arith)
      ];
    }

-- Whatever window is shown, it is the current period, it is not over yet, and what it counts as
-- taken is the recorded amount only while the recorded period lasts, and nothing after it.
pub subscription_cancel_window-IsWindow :
    (s : Subscription) (now : ℕ) (w : SubscriptionCancelWindow)
    → subscription_cancel_window s now ≡ ok w
    → IsWindow s now w
unfolding subscription_cancel_window
subscription_cancel_window-IsWindow s now w h = elim (Bool-cases (s.period_seconds == 0)) [
  | inl none_set ↦ absurd (ground arith)
  | inr some_time ↦
      let same : w ≡ window_at s now (periods_elapsed s now) = ground arith in
      rw same (window_at-IsWindow s now (ground arith))
]
