-- ===== src/Chain/Decode/Total.antt =====
-- packages/chain/src/decode.ts: which accounts become cards.
use cancel_chain.Common.{
  ℕ, ◌*◌, ◌≤◌, ◌<◌, ◌≡◌, inl, inr, refl, String, Bool, true, Option, none, some, arith, Bool-cases,
  ltb, leb, ◌==◌, ok, ◌||◌, ◌&&◌,
}
use cancel_chain.Common.Int.{ℤ, pos, negsuc}
use cancel_chain.Shared.Primitives.{max_safe_integer, u64_max, is_address}
use cancel_chain.Shared.Period.{period_seconds_from_hours}
use cancel_chain.Shared.Allowance.{Allowance, max_timestamp, timestamp_ok, fields_ok, all_or_none}
use cancel_chain.Shared.Allowance.WellFormed.{IsWellFormed, allowance_schema_complete}
use cancel_chain.Chain.Decode.{
  DecodedDelegation, fixed, recurring, subscription, unknown, Codecs, Header, timestamp_from_chain,
  derive_status, exhausted_if, has_passed, parse, amount_of, AllowanceContext, PlanRef,
  FixedDelegation, RecurringDelegation, SubscriptionDelegation, card_fixed, card_recurring,
  card_subscription, to_allowance_fixed, to_allowance_recurring, to_allowance_subscription,
  to_allowance, period_seconds_from_chain, period_seconds_from_chain_hours,
}

-- A moment that a date of four year digits spells, or the zero that says "not set".
abbrev pub InRange : ℤ → Type 0
InRange (pos s) = s * 1000 ≤ max_timestamp
InRange (negsuc n) = ⊥

abbrev pub HasAddresses : Codecs → String → Header → Type 0
HasAddresses sdk address h =
    (h.version ≡ sdk.current_version)
    × (is_address address ≡ true)
    × (is_address h.delegator ≡ true)
    × (is_address h.delegatee ≡ true)

abbrev pub IsFresh : AllowanceContext → Type 0
IsFresh context = (context.slot ≤ max_safe_integer) × (context.synced_at ≤ max_timestamp)

-- The values that an account of the program holds, as far as the shared shape can spell them.
abbrev pub IsReadable : Codecs → AllowanceContext → DecodedDelegation → Type 0
IsReadable sdk context (fixed address d) =
    HasAddresses sdk address d.header
    × (is_address d.mint ≡ true)
    × (d.amount ≤ u64_max)
    × InRange d.expiry_ts
IsReadable sdk context (recurring address d) =
    HasAddresses sdk address d.header
    × (is_address d.mint ≡ true)
    × (d.amount_per_period ≤ u64_max)
    × (d.amount_pulled_in_period ≤ u64_max)
    × ((0 < d.period_length_s) × (d.period_length_s ≤ max_safe_integer))
    × InRange d.current_period_start_ts
    × InRange d.expiry_ts
IsReadable sdk context (subscription address d) =
    HasAddresses sdk address d.header
    × ((plan : PlanRef) × (context.plan ≡ some plan)
        × (is_address plan.pda ≡ true)
        × (is_address plan.mint ≡ true))
    × (d.terms.amount ≤ u64_max)
    × (d.amount_pulled_in_period ≤ u64_max)
    × ((0 < d.terms.period_hours) × (d.terms.period_hours * 3600 ≤ max_safe_integer))
    × InRange d.current_period_start_ts
    × InRange d.expires_at_ts
IsReadable sdk context (unknown address d reason) = ⊥

amount_of_total : (n : ℕ) → n ≤ u64_max → amount_of n ≡ ok n
unfolding amount_of
amount_of_total n h = ground arith

moment_total :
    (ts : ℤ)
    → InRange ts
    → (o : Option ℕ) × (timestamp_from_chain ts ≡ ok o) × (timestamp_ok o ≡ true)
unfolding timestamp_from_chain
moment_total (pos s) h = elim (Bool-cases (s == 0)) [
  | inl unset ↦ (none, rw unset, refl)
  | inr set_at ↦ (some (s * 1000), ground arith, ground arith)
]
moment_total (negsuc n) h = elim h [ ]

period_total : (s : ℕ) → 0 < s → s ≤ max_safe_integer → period_seconds_from_chain s ≡ ok s
unfolding period_seconds_from_chain
period_total s p q = ground arith

hours_total :
    (h : ℕ)
    → 0 < h
    → h * 3600 ≤ max_safe_integer
    → period_seconds_from_chain_hours h ≡ ok (h * 3600)
unfolding period_seconds_from_chain_hours period_seconds_from_hours
hours_total h p q = ground arith

parse_total : (a : Allowance) → fields_ok a ≡ true → IsWellFormed a → parse a ≡ ok a
parse_total a typed shape = ground (arith, allowance_schema_complete a typed shape)

period_ok : (s : ℕ) → 0 < s → s ≤ max_safe_integer → (ltb 0 s && leb s max_safe_integer) ≡ true
period_ok s p q = ground arith

abbrev PeriodOk : Allowance → Type 0
PeriodOk a = all_or_none (λ s. ltb 0 s && leb s max_safe_integer) a.period_seconds ≡ true

fields_ok_intro :
    (a : Allowance)
    → (is_address a.pda ≡ true)
      × (is_address a.owner ≡ true)
      × (is_address a.delegate ≡ true)
      × (is_address a.mint ≡ true)
    → PeriodOk a
    → (timestamp_ok a.period_started_at ≡ true)
      × (timestamp_ok a.expires_at ≡ true)
      × (timestamp_ok a.paused_at ≡ true)
      × (timestamp_ok a.ends_at ≡ true)
    → all_or_none is_address a.plan_pda ≡ true
    → (a.last_slot ≤ max_safe_integer) × (a.synced_at ≤ max_timestamp)
    → (a.cap_amount ≤ u64_max) × (a.spent_in_period ≤ u64_max)
    → fields_ok a ≡ true
unfolding fields_ok
fields_ok_intro a (p, o, d, m) period (t1, t2, t3, t4) plan (slot, synced) (most, spent) =
    let slot_ok : leb a.last_slot max_safe_integer ≡ true = ground arith in
    let synced_ok : leb a.synced_at max_timestamp ≡ true = ground arith in
    let most_ok : leb a.cap_amount u64_max ≡ true = ground arith in
    let spent_ok : leb a.spent_in_period u64_max ≡ true = ground arith in
    rw (p, o, d, m, period, t1, t2, t3, t4, plan, slot_ok, synced_ok, most_ok, spent_ok)

module _ (sdk : Codecs) (context : AllowanceContext) (address : String)
    (fresh : IsFresh context) where
  fixed_total :
      (d : FixedDelegation)
      → IsReadable sdk context (fixed address d)
      → (a : Allowance) × (to_allowance_fixed sdk context address d ≡ ok a)
  unfolding to_allowance_fixed derive_status
  fixed_total d ((version, pda, owner, delegate), mint, fits, expiry) =
      let (ex, is_ex, ex_ok) = moment_total d.expiry_ts expiry in
      let b = d.amount == 0 || has_passed d.expiry_ts context.now in
      let card = card_fixed context address d (exhausted_if b) d.amount ex in
      let typed : fields_ok card ≡ true =
        fields_ok_intro card (pda, owner, delegate, mint) refl (refl, ex_ok, refl, refl) refl fresh
          (fits, omega arith) in
      (
        card,
        ground (
          arith,
          amount_of_total d.amount fits,
          parse_total card typed (fixed_shape b d.amount ex),
        ),
      )
    where
      fixed_shape :
          (b : Bool) (most : ℕ) (ex : Option ℕ)
          → IsWellFormed (card_fixed context address d (exhausted_if b) most ex)
      fixed_shape b most ex = ground arith

  recurring_total :
      (d : RecurringDelegation)
      → IsReadable sdk context (recurring address d)
      → (a : Allowance) × (to_allowance_recurring sdk context address d ≡ ok a)
  unfolding to_allowance_recurring derive_status
  recurring_total d
        (
          (version, pda, owner, delegate),
          mint,
          fits,
          spent_fits,
          (some_time, safe),
          start,
          expiry,
        ) =
      let (st, is_st, st_ok) = moment_total d.current_period_start_ts start in
      let (ex, is_ex, ex_ok) = moment_total d.expiry_ts expiry in
      let b = has_passed d.expiry_ts context.now in
      let card =
        card_recurring context address d (exhausted_if b) d.amount_per_period
          d.amount_pulled_in_period d.period_length_s st ex in
      let typed : fields_ok card ≡ true =
        fields_ok_intro card (pda, owner, delegate, mint) (period_ok _ some_time safe)
          (st_ok, ex_ok, refl, refl) refl fresh (fits, spent_fits) in
      (
        card,
        ground (
          arith,
          amount_of_total d.amount_per_period fits,
          amount_of_total d.amount_pulled_in_period spent_fits,
          period_total d.period_length_s some_time safe,
          parse_total card typed (recurring_shape b st ex),
        ),
      )
    where
      recurring_shape :
          (b : Bool) (st ex : Option ℕ)
          → IsWellFormed (
              card_recurring context address d
                (exhausted_if b)
                d.amount_per_period
                d.amount_pulled_in_period
                d.period_length_s
                st
                ex)
      recurring_shape b st ex = ground arith

  subscription_total :
      (d : SubscriptionDelegation)
      → IsReadable sdk context (subscription address d)
      → (a : Allowance) × (to_allowance_subscription sdk context address d ≡ ok a)
  unfolding to_allowance_subscription derive_status
  subscription_total d
        (
          (version, pda, owner, delegate),
          (plan, named, plan_ok, mint),
          fits,
          spent_fits,
          (some_time, safe),
          start,
          expiry,
        ) =
      let (st, is_st, st_ok) = moment_total d.current_period_start_ts start in
      let (ex, is_ex, ex_ok) = moment_total d.expires_at_ts expiry in
      let b = has_passed d.expires_at_ts context.now in
      let card =
        card_subscription context address d (exhausted_if b) plan d.terms.amount
          d.amount_pulled_in_period (d.terms.period_hours * 3600) st ex in
      let typed : fields_ok card ≡ true =
        fields_ok_intro card (pda, owner, delegate, mint)
          (period_ok (d.terms.period_hours * 3600) (omega arith) safe) (st_ok, refl, refl, ex_ok)
          plan_ok fresh (fits, spent_fits) in
      (
        card,
        ground (
          arith,
          amount_of_total d.terms.amount fits,
          amount_of_total d.amount_pulled_in_period spent_fits,
          hours_total d.terms.period_hours some_time safe,
          parse_total card typed (subscription_shape b plan st ex),
        ),
      )
    where
      subscription_shape :
          (b : Bool) (plan : PlanRef) (st ex : Option ℕ)
          → IsWellFormed (
              card_subscription context address d
                (exhausted_if b)
                plan
                d.terms.amount
                d.amount_pulled_in_period
                (d.terms.period_hours * 3600)
                st
                ex)
      subscription_shape b plan st ex = ground arith

-- An account that holds only values the shared shape can spell, of this build's version and, for
-- a subscription, with its plan at hand, always becomes a card: none is refused.
pub to_allowance_total :
    (sdk : Codecs) (context : AllowanceContext) (d : DecodedDelegation)
    → IsFresh context
    → IsReadable sdk context d
    → (a : Allowance) × (to_allowance sdk context d ≡ ok a)
unfolding to_allowance
to_allowance_total sdk context (fixed address d) fresh r = fixed_total sdk context address fresh d r
to_allowance_total sdk context (recurring address d) fresh r =
    recurring_total sdk context address fresh d r
to_allowance_total sdk context (subscription address d) fresh r =
    subscription_total sdk context address fresh d r
to_allowance_total sdk context (unknown address d reason) fresh r = elim r [ ]
