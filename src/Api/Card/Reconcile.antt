-- ===== src/Api/Card/Reconcile.antt =====
-- apps/api/src/routes/allowances.ts: what a card says of the network's state and of our pause.
use cancel_chain.Common.{
  ℕ, ◌≡◌, ◌↔◌, ◌⊎◌, inl, inr, refl, String, true, false, Option, none, some, arith, Bool-cases,
}
use cancel_chain.Shared.Allowance.{Allowance, AllowanceStatus, active, paused, revoked}
use cancel_chain.Shared.Allowance.WellFormed.{IsWellFormed}
use cancel_chain.Chain.Read.Cards.{ReadAllowance}
use cancel_chain.Api.Card.{
  comparable_status, same_status, same_moment, diverges, AllowanceCard, is_labelled, labelled,
  reconcile,
}

-- The stored copy and the network agree on what the network keeps; our pause counts as "active".
pub record Agree (cached chain : Allowance) : Type 0 where
  pub statuses :
      (cached.status ≡ chain.status)
      ⊎ ((cached.status ≡ paused) × (chain.status ≡ active))
      ⊎ ((cached.status ≡ active) × (chain.status ≡ paused))
  pub caps : cached.cap_amount ≡ chain.cap_amount
  pub spent : cached.spent_in_period ≡ chain.spent_in_period
  pub starts : cached.period_started_at ≡ chain.period_started_at
  pub expiries : cached.expires_at ≡ chain.expires_at
  pub ends : cached.ends_at ≡ chain.ends_at

same_moment_iff : (a b : Option ℕ) → (same_moment a b ≡ true) ↔ (a ≡ b)
same_moment_iff a b = ground arith

statuses_iff :
    (a b : AllowanceStatus)
    → (same_status (comparable_status a) (comparable_status b) ≡ true)
      ↔ ((a ≡ b) ⊎ ((a ≡ paused) × (b ≡ active)) ⊎ ((a ≡ active) × (b ≡ paused)))
unfolding comparable_status
statuses_iff a b = ground arith

diverges_iff : (cached chain : Allowance) → (diverges cached chain ≡ false) ↔ Agree cached chain
unfolding diverges
diverges_iff cached chain = (
  λ h. record {
    statuses = (statuses_iff cached.status chain.status).0 (ground arith);
    caps = ground arith;
    spent = ground arith;
    starts = (same_moment_iff _ _).0 (ground arith);
    expiries = (same_moment_iff _ _).0 (ground arith);
    ends = (same_moment_iff _ _).0 (ground arith);
  },
  λ agree.
      let same = (statuses_iff cached.status chain.status).1 agree.statuses in
      let starts = (same_moment_iff _ _).1 agree.starts in
      let expiries = (same_moment_iff _ _).1 agree.expiries in
      let ends = (same_moment_iff _ _).1 agree.ends in
      rw (same, starts, expiries, ends) (ground (arith, agree.caps, agree.spent)),
)

-- What the network says of one permission, which is never a pause.
abbrev pub IsFromNetwork : Option ReadAllowance → Type 0
IsFromNetwork none = Unit
IsFromNetwork (some c) = IsWellFormed c.allowance × (c.allowance.paused_at ≡ none)

abbrev pub IsStored : Option Allowance → Type 0
IsStored none = Unit
IsStored (some cached) = IsWellFormed cached

labelled-status :
    (cached : Option Allowance) (chain : Allowance)
    → IsWellFormed chain
    → chain.paused_at ≡ none
    → ((labelled cached chain).status ≡ active) ⊎ ((labelled cached chain).status ≡ paused)
    → chain.status ≡ active
labelled-status none chain h unpaused live = ground (arith, h.pause_is_status)
labelled-status (some cached) chain h unpaused live = ground (arith, h.pause_is_status)

-- Where the read is well formed and says no pause of ours, which no read of the network does, a
-- card says "active" or "paused" only where the network says "active" at that moment, whatever
-- the stored copy says.
pub reconcile-live :
    (cached : Option Allowance) (chain : Option ReadAllowance) (slot : ℕ) (mint : String)
    (card : AllowanceCard)
    → IsFromNetwork chain
    → reconcile cached chain slot mint ≡ some card
    → (card.allowance.status ≡ active) ⊎ (card.allowance.status ≡ paused)
    → (c : ReadAllowance) × (chain ≡ some c) × (c.allowance.status ≡ active)
unfolding reconcile
reconcile-live none none slot mint card _ h live = absurd (ground (arith, h))
reconcile-live (some cached) none slot mint card _ h live = absurd (ground (arith, h, live))
reconcile-live cached (some c) slot mint card (shape, unpaused) h live =
    let is : card.allowance ≡ labelled cached c.allowance = ground (arith, h) in
    (c, refl, labelled-status cached c.allowance shape unpaused (rw is at live))

labelled-IsWellFormed :
    (cached : Option Allowance) (chain : Allowance)
    → IsWellFormed chain
    → IsWellFormed (labelled cached chain)
labelled-IsWellFormed cached chain h = elim (Bool-cases (is_labelled cached chain)) [
  | inr plain ↦ rw plain h
  | inl ours ↦ rw ours (record {
    has_period = h.has_period;
    start_needs_period = h.start_needs_period;
    pause_of_subscription = ground arith;
    end_of_subscription = h.end_of_subscription;
    pause_is_status = ground arith;
  })
]

closed-IsWellFormed :
    (cached : Allowance) (slot : ℕ)
    → IsWellFormed cached
    → IsWellFormed (record cached { status = revoked; paused_at = none; last_slot = slot })
closed-IsWellFormed cached slot h = record {
  has_period = h.has_period;
  start_needs_period = h.start_needs_period;
  pause_of_subscription = ground arith;
  end_of_subscription = h.end_of_subscription;
  pause_is_status = refl;
}

-- A card made of a well-formed stored copy, or of none, and of a well-formed read without a pause
-- of ours, or of none, is well formed.
pub reconcile-IsWellFormed :
    (cached : Option Allowance) (chain : Option ReadAllowance) (slot : ℕ) (mint : String)
    (card : AllowanceCard)
    → IsStored cached
    → IsFromNetwork chain
    → reconcile cached chain slot mint ≡ some card
    → IsWellFormed card.allowance
unfolding reconcile
reconcile-IsWellFormed none none slot mint card _ _ h = absurd (ground (arith, h))
reconcile-IsWellFormed (some cached) none slot mint card stored _ h =
    let is : card.allowance
        ≡ record cached { status = revoked; paused_at = none; last_slot = slot } =
      ground (arith, h) in
    rw is (closed-IsWellFormed cached slot stored)
reconcile-IsWellFormed cached (some c) slot mint card stored (shape, _) h =
    let is : card.allowance ≡ labelled cached c.allowance = ground (arith, h) in
    rw is (labelled-IsWellFormed cached c.allowance shape)

-- The two sides agree where the network has the permission, or where neither has it any more.
abbrev pub IsAgreed : Allowance → Option ReadAllowance → Type 0
IsAgreed cached none = cached.status ≡ revoked
IsAgreed cached (some c) = Agree cached c.allowance

-- The card of a stored permission warns of a divergence exactly where the stored copy and the
-- network do not agree; a pause of ours is none.
pub reconcile-diverged_iff :
    (cached : Allowance) (chain : Option ReadAllowance) (slot : ℕ) (mint : String)
    (card : AllowanceCard)
    → reconcile (some cached) chain slot mint ≡ some card
    → (card.diverged ≡ false) ↔ IsAgreed cached chain
unfolding reconcile
reconcile-diverged_iff cached none slot mint card h = ground (arith, h)
reconcile-diverged_iff cached (some c) slot mint card h =
    let is : card.diverged ≡ diverges cached c.allowance = ground (arith, h) in
    rw is (diverges_iff cached c.allowance)
