-- ===== src/Chain/Decode/Convert.antt =====
-- packages/chain/src/decode.ts: what a card says of its account.
use cancel_chain.Common.{
  ap, ◌∙◌, ℕ, ◌/◌, ◌≡◌, ◌≢◌, ◌↔◌, ◌⊎◌, refl, String, none, arith, ok, with_ok,
}
use cancel_chain.Common.Int.{ℤ, pos, ◌≤ℤ◌}
use cancel_chain.Shared.Allowance.{active, exhausted, AllowanceStatus, Allowance, allowance_schema}
use cancel_chain.Shared.Allowance.WellFormed.{IsWellFormed, allowance_schema_sound}
use cancel_chain.Chain.Decode.{
  DecodedDelegation, address_of, fixed, recurring, subscription, unknown, Codecs,
  timestamp_from_chain, derive_status, check_version, required_plan, parse, amount_of,
  AllowanceContext, FixedDelegation, RecurringDelegation, SubscriptionDelegation,
  to_allowance_fixed, to_allowance_recurring, to_allowance_subscription, to_allowance,
  period_seconds_from_chain, period_seconds_from_chain_hours,
}

-- A moment that is set and not after `now`, in whole seconds.
abbrev pub HasPassed : ℤ → ℕ → Type 0
HasPassed ts now = (ts ≢ pos 0) × (ts ≤ℤ pos (now / 1000))

-- Why an account's permission can charge no more.
abbrev pub IsSpent : DecodedDelegation → ℕ → Type 0
IsSpent (fixed address d) now = (d.amount ≡ 0) ⊎ HasPassed d.expiry_ts now
IsSpent (recurring address d) now = HasPassed d.expiry_ts now
IsSpent (subscription address d) now = HasPassed d.expires_at_ts now
IsSpent (unknown address d reason) now = ⊥

parse_sound : (a b : Allowance) → parse a ≡ ok b → (b ≡ a) × IsWellFormed a
parse_sound a b h =
    let accepted : allowance_schema a ≡ ok b = ground arith in
    let (same, shape, _, _) = allowance_schema_sound a b accepted in (same, shape)

amount_of_lem : (n m : ℕ) → amount_of n ≡ ok m → m ≡ n
unfolding amount_of
amount_of_lem n m h = ground arith

-- What the card of an account says, whichever kind it is: it names the account, is well formed, is never paused, has
-- run out exactly where the account is spent, and is otherwise active.
pub record IsCardOf (d : DecodedDelegation) (now : ℕ) (a : Allowance) : Type 0 where
  pub at : a.pda ≡ address_of d
  pub shape : IsWellFormed a
  pub unpaused : a.paused_at ≡ none
  pub runs_out : (a.status ≡ exhausted) ↔ IsSpent d now
  pub runs : (a.status ≡ active) ⊎ (a.status ≡ exhausted)

status_of :
    (d : DecodedDelegation) (now : ℕ) (st : AllowanceStatus)
    → derive_status d now ≡ ok st
    → ((st ≡ exhausted) ↔ IsSpent d now) × ((st ≡ active) ⊎ (st ≡ exhausted))
unfolding derive_status
status_of (fixed address d) now st h = ground arith
status_of (recurring address d) now st h = ground arith
status_of (subscription address d) now st h = ground arith
status_of (unknown address d reason) now st h = absurd (ground arith)

card_of :
    (d : DecodedDelegation) (now : ℕ) (a b : Allowance)
    → b.pda ≡ address_of d
    → derive_status d now ≡ ok b.status
    → b.paused_at ≡ none
    → parse b ≡ ok a
    → IsCardOf d now a × (a ≡ b)
card_of d now a b at st unpaused h =
    let (same, shape) = parse_sound b a h in
    let (runs_out, runs) = status_of d now b.status st in
    (
      rw same (record {
        at = at;
        shape = shape;
        unpaused = unpaused;
        runs_out = runs_out;
        runs = runs;
      }),
      same,
    )

module _ (sdk : Codecs) (context : AllowanceContext) (address : String) (a : Allowance) where
  fixed_sound :
      (d : FixedDelegation)
      → to_allowance_fixed sdk context address d ≡ ok a
      → IsCardOf (fixed address d) context.now a
        × (a.cap_amount ≡ d.amount)
        × (a.spent_in_period ≡ 0)
  unfolding to_allowance_fixed
  fixed_sound d h = with_ok (check_version sdk context address d.header.version) _ h λ _ _ h1.
      with_ok (derive_status (fixed address d) context.now) _ h1 λ st is_st h2.
        with_ok (amount_of d.amount) _ h2 λ cap is_cap h3.
          with_ok (timestamp_from_chain d.expiry_ts) _ h3 λ ex is_ex h4.
            let (card, same) = card_of (fixed address d) context.now a _ refl is_st refl h4 in
            (
              card,
              ap (λ r. r.cap_amount) same ∙ amount_of_lem _ _ is_cap,
              ap (λ r. r.spent_in_period) same,
            )

  recurring_sound :
      (d : RecurringDelegation)
      → to_allowance_recurring sdk context address d ≡ ok a
      → IsCardOf (recurring address d) context.now a
        × (a.cap_amount ≡ d.amount_per_period)
        × (a.spent_in_period ≡ d.amount_pulled_in_period)
  unfolding to_allowance_recurring
  recurring_sound d h = with_ok (check_version sdk context address d.header.version) _ h λ _ _ h1.
      with_ok (derive_status (recurring address d) context.now) _ h1 λ st is_st h2.
        with_ok (amount_of d.amount_per_period) _ h2 λ cap is_cap h3.
          with_ok (amount_of d.amount_pulled_in_period) _ h3 λ spent is_spent h4.
            with_ok (period_seconds_from_chain d.period_length_s) _ h4 λ _ _ h5.
              with_ok (timestamp_from_chain d.current_period_start_ts) _ h5 λ _ _ h6.
                with_ok (timestamp_from_chain d.expiry_ts) _ h6 λ _ _ h7.
                  let (card, same) =
                    card_of (recurring address d) context.now a _ refl is_st refl h7 in
                  (
                    card,
                    ap (λ r. r.cap_amount) same ∙ amount_of_lem _ _ is_cap,
                    ap (λ r. r.spent_in_period) same ∙ amount_of_lem _ _ is_spent,
                  )

  subscription_sound :
      (d : SubscriptionDelegation)
      → to_allowance_subscription sdk context address d ≡ ok a
      → IsCardOf (subscription address d) context.now a
        × (a.cap_amount ≡ d.terms.amount)
        × (a.spent_in_period ≡ d.amount_pulled_in_period)
  unfolding to_allowance_subscription
  subscription_sound d h =
      with_ok (check_version sdk context address d.header.version) _ h λ _ _ h1.
        with_ok (derive_status (subscription address d) context.now) _ h1 λ st is_st h2.
          with_ok (required_plan sdk context address context.plan) _ h2 λ plan _ h3.
            with_ok (amount_of d.terms.amount) _ h3 λ cap is_cap h4.
              with_ok (amount_of d.amount_pulled_in_period) _ h4 λ spent is_spent h5.
                with_ok (period_seconds_from_chain_hours d.terms.period_hours) _ h5 λ _ _ h6.
                  with_ok (timestamp_from_chain d.current_period_start_ts) _ h6 λ _ _ h7.
                    with_ok (timestamp_from_chain d.expires_at_ts) _ h7 λ _ _ h8.
                      let (card, same) =
                        card_of (subscription address d) context.now a _ refl is_st refl h8 in
                      (
                        card,
                        ap (λ r. r.cap_amount) same ∙ amount_of_lem _ _ is_cap,
                        ap (λ r. r.spent_in_period) same ∙ amount_of_lem _ _ is_spent,
                      )

-- The ceiling and the amount taken, as the account holds them. A one-off account does not say what
-- was taken.
abbrev pub cap_of : DecodedDelegation → ℕ
cap_of (fixed address d) = d.amount
cap_of (recurring address d) = d.amount_per_period
cap_of (subscription address d) = d.terms.amount
cap_of (unknown address d reason) = 0

abbrev pub spent_of : DecodedDelegation → ℕ
spent_of (fixed address d) = 0
spent_of (recurring address d) = d.amount_pulled_in_period
spent_of (subscription address d) = d.amount_pulled_in_period
spent_of (unknown address d reason) = 0

-- An account that becomes a card becomes a truthful one: it names the account, is well formed, never paused, run out exactly
-- where the account is spent at that moment, with the account's own ceiling and amount taken.
pub to_allowance-IsCardOf :
    (sdk : Codecs) (context : AllowanceContext) (d : DecodedDelegation) (a : Allowance)
    → to_allowance sdk context d ≡ ok a
    → IsCardOf d context.now a × (a.cap_amount ≡ cap_of d) × (a.spent_in_period ≡ spent_of d)
unfolding to_allowance
to_allowance-IsCardOf sdk context (fixed address d) a h = fixed_sound sdk context address a d h
to_allowance-IsCardOf sdk context (recurring address d) a h =
    recurring_sound sdk context address a d h
to_allowance-IsCardOf sdk context (subscription address d) a h =
    subscription_sound sdk context address a d h
to_allowance-IsCardOf sdk context (unknown address d reason) a h = absurd (ground arith)
