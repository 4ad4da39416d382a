-- ===== src/Chain/Revoke/Actions.antt =====
-- packages/chain/src/revoke.ts: which of the two instructions is built, and for whom.
use cancel_chain.Common.{
  ℕ, refl, ◌<◌, ◌≤◌, Bool-cases, some, throw, ◌≡◌, ◌≢◌, ◌⊎◌, inl, inr, String, Bool, true, false,
  Option, none, some, arith, eq_iff, ok,
}
use cancel_chain.Shared.Allowance.{is_subscription}
use cancel_chain.Chain.Revoke.{
  close, cancel_subscription, revoke_action_for, RevokeTarget, RevokeAction, wait, not_ended,
  already_cancelled, Instruction, close_of_subscription, close_of_delegation, revoke_subscription,
  revoke_delegation, cancel_subscription_ix, build_revoke_instruction,
  build_cancel_subscription_instruction,
}

module _ (valid : String → Bool) (a : RevokeTarget) (authority : String) where
  close_of_subscription-action :
      (signer : String) (receiver : Option String) (now : ℕ) (i : Instruction)
      → close_of_subscription valid a signer receiver now ≡ ok i
      → revoke_action_for a.kind a.ends_at now ≡ close
  unfolding close_of_subscription
  close_of_subscription-action signer receiver now i h = ground arith

  action-other :
      (now : ℕ) → is_subscription a.kind ≡ false → revoke_action_for a.kind a.ends_at now ≡ close
  unfolding revoke_action_for
  action-other now other = rw other

  build_revoke-action :
      (receiver : Option String) (now : ℕ) (i : Instruction)
      → build_revoke_instruction valid a authority receiver now ≡ ok i
      → (authority ≡ a.owner) × (revoke_action_for a.kind a.ends_at now ≡ close)
  unfolding build_revoke_instruction
  build_revoke-action receiver now i h = ground (
    arith,
    eq_iff authority a.owner,
    action-other now,
    close_of_subscription-action authority receiver now i,
  )

  -- No subscription, or one that was cancelled and whose last paid moment is not ahead.
  abbrev pub MayClose : ℕ → Type 0
  MayClose now =
      (is_subscription a.kind ≡ false) ⊎ ((until : ℕ) × (a.ends_at ≡ some until) × (until ≤ now))

  closed_now :
      (now : ℕ) (ends_at : Option ℕ)
      → revoke_action_for a.kind ends_at now ≡ close
      → (is_subscription a.kind ≡ false) ⊎ ((until : ℕ) × (ends_at ≡ some until) × (until ≤ now))
  unfolding revoke_action_for
  closed_now now none h = inl (ground arith)
  closed_now now (some until) h = elim (Bool-cases (is_subscription a.kind)) [
    | inl is ↦ inr (until, refl, ground (arith, h, is))
    | inr other ↦ inl other
  ]

  -- An instruction that closes a permission is built only for its owner's signature, and only for a
  -- one-off or recurring permission, or for a subscription that was cancelled and whose last paid
  -- moment is not ahead: a subscription that was never cancelled is not closed.
  pub build_revoke_guarded :
      (receiver : Option String) (now : ℕ) (i : Instruction)
      → build_revoke_instruction valid a authority receiver now ≡ ok i
      → (authority ≡ a.owner) × MayClose now
  build_revoke_guarded receiver now i h =
      let (signs, action) = build_revoke-action receiver now i h in
      (signs, closed_now now a.ends_at action)

  cancel_guarded :
      (i : Instruction)
      → build_cancel_subscription_instruction valid a authority ≡ ok i
      → (is_subscription a.kind ≡ true) × (a.ends_at ≡ none)
  unfolding build_cancel_subscription_instruction
  cancel_guarded i h = ground arith

  -- Of the two instructions at most one can be built at one moment, whoever signs: a subscription
  -- is cancelled first and closed only after that.
  pub build_exclusive :
      (receiver : Option String) (now : ℕ) (i j : Instruction)
      → build_revoke_instruction valid a authority receiver now ≡ ok i
      → build_cancel_subscription_instruction valid a authority ≢ ok j
  unfolding revoke_action_for
  build_exclusive receiver now i j h k =
      ground (arith, build_revoke-action receiver now i h, cancel_guarded j k)

  -- A plan at a valid address exactly for a subscription.
  abbrev PlanFits : Type 0
  PlanFits =
      ((is_subscription a.kind ≡ true)
        × (plan : String) × (a.plan_pda ≡ some plan)
        × (valid plan ≡ true))
      ⊎ ((is_subscription a.kind ≡ false) × (a.plan_pda ≡ none))

  -- What the builders need: addresses that are addresses, the owner's signature, and a plan exactly
  -- for a subscription.
  pub record IsPrepared : Type 0 where
    pub pda_ok : valid a.pda ≡ true
    pub owner_ok : valid a.owner ≡ true
    pub signs : authority ≡ a.owner
    pub plan_ok : PlanFits

  -- What each named action comes to: its instruction is built, or both are refused with the moment
  -- to wait for.
  abbrev pub IsTaken : ℕ → RevokeAction → Type 0
  IsTaken now close =
      (i : Instruction) × (build_revoke_instruction valid a authority none now ≡ ok i)
  IsTaken now cancel_subscription =
      (i : Instruction) × (build_cancel_subscription_instruction valid a authority ≡ ok i)
  IsTaken now (wait until) =
      (now < until)
      × (build_revoke_instruction valid a authority none now ≡ throw (not_ended (some until)))
      × (build_cancel_subscription_instruction valid a authority ≡ throw (already_cancelled until))

  wait_until :
      (now : ℕ) (until : ℕ)
      → revoke_action_for a.kind a.ends_at now ≡ wait until
      → (is_subscription a.kind ≡ true) × (a.ends_at ≡ some until) × (now < until)
  unfolding revoke_action_for
  wait_until now until h = ground arith

  module _ (now : ℕ) (p : IsPrepared) where
    signer_ok : valid authority ≡ true
    signer_ok = ground (arith, p.signs, p.owner_ok)

    IsTaken-close : PlanFits → revoke_action_for a.kind a.ends_at now ≡ close → IsTaken now close
    unfolding build_revoke_instruction close_of_subscription close_of_delegation
    IsTaken-close (inl (k, plan, named, plan_valid)) h = (
      revoke_subscription authority plan a.pda none,
      ground (arith, eq_iff authority a.owner, signer_ok),
    )
    IsTaken-close (inr (k, no_plan)) h = (
      revoke_delegation authority a.pda none,
      ground (arith, eq_iff authority a.owner, signer_ok),
    )

    IsTaken-cancel :
        PlanFits
        → revoke_action_for a.kind a.ends_at now ≡ cancel_subscription
        → IsTaken now cancel_subscription
    unfolding build_cancel_subscription_instruction revoke_action_for
    IsTaken-cancel (inl (k, plan, named, plan_valid)) h = (
      cancel_subscription_ix authority plan a.pda,
      ground (arith, eq_iff authority a.owner, signer_ok),
    )
    IsTaken-cancel (inr (k, no_plan)) h = absurd (ground arith)

    IsTaken-wait :
        (until : ℕ)
        → PlanFits
        → revoke_action_for a.kind a.ends_at now ≡ wait until
        → IsTaken now (wait until)
    unfolding build_revoke_instruction build_cancel_subscription_instruction close_of_subscription
    IsTaken-wait until (inl (k, plan, named, plan_valid)) h =
        let (_, ends, later) = wait_until now until h in
        (
          later,
          ground (arith, eq_iff authority a.owner, signer_ok),
          ground (arith, eq_iff authority a.owner, signer_ok),
        )
    IsTaken-wait until (inr (k, no_plan)) h = absurd (ground (arith, wait_until now until h))

    taken : (r : RevokeAction) → revoke_action_for a.kind a.ends_at now ≡ r → IsTaken now r
    taken close h = IsTaken-close p.plan_ok h
    taken cancel_subscription h = IsTaken-cancel p.plan_ok h
    taken (wait until) h = IsTaken-wait until p.plan_ok h

    -- For a target whose addresses are valid, whose owner signs and which names a plan exactly
    -- where it is a subscription, what the program names as the action now can be taken: the
    -- instruction it stands for is built, and where it says to wait, the moment is still to come
    -- and both instructions are refused with it.
    pub build_total : IsTaken now (revoke_action_for a.kind a.ends_at now)
    build_total = taken _ refl
