-- ===== src/Shared/Allowance/WellFormed.antt =====
-- packages/shared/src/allowance.ts: what the checks of a permission amount to.
use cancel_chain.Common.{
  ◌≤◌, ◌≡◌, ◌≢◌, ◌↔◌, true, List, [], ◌∷◌, arith, is_some, is_none, ok, inl, inr, leb→le,
  Bool-cases, and_true,
}
use cancel_chain.Shared.Primitives.{u64_max}
use cancel_chain.Shared.Allowance.{
  fixed, subscription, is_fixed, is_paused, Allowance, Issue, accept, check_allowance, fields_ok,
  allowance_schema,
}

-- Only a one-off permission has no period; a pause and an end are a subscription's alone, and the
-- status says "paused" exactly where the moment of the pause is known.
pub record IsWellFormed (a : Allowance) : Type 0 where
  pub has_period : is_none a.period_seconds ≡ is_fixed a.kind
  pub start_needs_period : is_some a.period_started_at ≡ true → a.kind ≢ fixed
  pub pause_of_subscription : is_some a.paused_at ≡ true → a.kind ≡ subscription
  pub end_of_subscription : is_some a.ends_at ≡ true → a.kind ≡ subscription
  pub pause_is_status : is_some a.paused_at ≡ is_paused a.status

pub check_allowance_sound : (a : Allowance) → check_allowance a ≡ [] → IsWellFormed a
unfolding check_allowance
check_allowance_sound a h = record {
  has_period = ground arith;
  start_needs_period = ground arith;
  pause_of_subscription = ground arith;
  end_of_subscription = ground arith;
  pause_is_status = ground arith;
}

pub check_allowance_complete : (a : Allowance) → IsWellFormed a → check_allowance a ≡ []
unfolding check_allowance
check_allowance_complete a w =
    ground (arith, w.start_needs_period, w.pause_of_subscription, w.end_of_subscription)

-- The checks of a permission find nothing exactly where it is well formed.
pub check_allowance_iff : (a : Allowance) → (check_allowance a ≡ []) ↔ IsWellFormed a
check_allowance_iff a = (check_allowance_sound a, check_allowance_complete a)

amounts_fit :
    (a : Allowance) → fields_ok a ≡ true → (a.cap_amount ≤ u64_max) × (a.spent_in_period ≤ u64_max)
unfolding fields_ok
amounts_fit a h =
    let (_, amounts) = and_true _ _ h in
    let (cap, spent) = and_true _ _ amounts in (leb→le _ _ cap, leb→le _ _ spent)

accept_sound :
    (a b : Allowance) (found : List Issue) → accept a found ≡ ok b → (b ≡ a) × (found ≡ [])
accept_sound a b [] h = ground arith
accept_sound a b (i ∷ is) h = cc

-- What the schema lets through is the value itself, well formed, and its amounts are u64.
pub allowance_schema_sound :
    (a b : Allowance)
    → allowance_schema a ≡ ok b
    → (b ≡ a) × IsWellFormed a × (a.cap_amount ≤ u64_max) × (a.spent_in_period ≤ u64_max)
unfolding allowance_schema
allowance_schema_sound a b h = elim (Bool-cases (fields_ok a)) [
  | inl typed ↦
      let (same, clean) = accept_sound a b (check_allowance a) (rw typed at h) in
      let (cap, spent) = amounts_fit a typed in (same, check_allowance_sound a clean, cap, spent)
  | inr untyped ↦ absurd (ground arith)
]

-- A value whose fields have their types and which is well formed is let through unchanged.
pub allowance_schema_complete :
    (a : Allowance) → fields_ok a ≡ true → IsWellFormed a → allowance_schema a ≡ ok a
unfolding allowance_schema
allowance_schema_complete a typed w = rw (typed, check_allowance_complete a w)
