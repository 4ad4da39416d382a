-- ===== src/Shared/Allowance.antt =====
-- packages/shared/src/allowance.ts: the shape of a permission and of a feed event, and the checks
-- that the schemas make beyond the types of the fields. A moment is its number of milliseconds, an
-- amount its number of smallest units, and a slot is a number.
pub mod WellFormed
use cancel_chain.Common.{
  ℕ, String, Bool, true, false, not, ◌&&◌, ◌||◌, Option, none, some, List, [], ◌∷◌, ◌++◌, ltb, leb,
  if◌then◌else◌, is_some, is_none, Result, ok, throw,
}
use cancel_chain.Shared.Primitives.{u64_max, max_safe_integer, is_address}

pub data AllowanceKind : Type 0 where
  fixed recurring subscription : AllowanceKind

pub data AllowanceStatus : Type 0 where
  active paused revoked exhausted : AllowanceStatus

abbrev pub is_fixed : AllowanceKind → Bool
is_fixed fixed = true
is_fixed _ = false

abbrev pub is_subscription : AllowanceKind → Bool
is_subscription subscription = true
is_subscription _ = false

abbrev pub is_active : AllowanceStatus → Bool
is_active active = true
is_active _ = false

abbrev pub is_paused : AllowanceStatus → Bool
is_paused paused = true
is_paused _ = false

abbrev pub is_revoked : AllowanceStatus → Bool
is_revoked revoked = true
is_revoked _ = false

pub record Allowance : Type 0 where
  pub pda : String
  pub owner : String
  pub delegate : String
  pub mint : String
  pub kind : AllowanceKind
  pub cap_amount : ℕ
  pub period_seconds : Option ℕ
  pub spent_in_period : ℕ
  pub period_started_at : Option ℕ
  pub expires_at : Option ℕ
  pub paused_at : Option ℕ
  pub ends_at : Option ℕ
  pub status : AllowanceStatus
  pub plan_pda : Option String
  pub last_slot : ℕ
  pub synced_at : ℕ

-- One constructor for each message of `checkAllowance` and of the event's refinement.
pub data Issue : Type 0 where
  must_have_period fixed_has_no_period fixed_has_no_start : Issue
  only_subscription_pauses only_subscription_ends : Issue
  paused_says_when pause_has_status : Issue
  only_cancellation_says_stop only_rejection_has_reason charge_says_amount : Issue

-- `if (test) ctx.addIssue(issue)`
abbrev pub add_issue : Bool → Issue → List Issue
add_issue test issue = if test then issue ∷ [] else []

unfoldable pub check_allowance : Allowance → List Issue
check_allowance a =
    let periodic = not (is_fixed a.kind) in
    add_issue (periodic && is_none a.period_seconds) must_have_period
    ++ (add_issue (not periodic && is_some a.period_seconds) fixed_has_no_period
        ++ (add_issue (not periodic && is_some a.period_started_at) fixed_has_no_start
            ++ (add_issue (is_some a.paused_at && not (is_subscription a.kind))
                  only_subscription_pauses
                ++ (add_issue (is_some a.ends_at && not (is_subscription a.kind))
                      only_subscription_ends
                    ++ (add_issue (is_paused a.status && is_none a.paused_at) paused_says_when
                        ++ add_issue (not (is_paused a.status) && is_some a.paused_at)
                            pause_has_status)))))

-- The latest moment that an ISO 8601 date of four year digits can spell.
abbrev pub max_timestamp : ℕ
max_timestamp = 253_402_300_799_999

abbrev pub all_or_none {ℓ} : {A : Type ℓ} → (A → Bool) → Option A → Bool
all_or_none p none = true
all_or_none p (some a) = p a

abbrev pub timestamp_ok : Option ℕ → Bool
timestamp_ok = all_or_none (λ t. leb t max_timestamp)

-- The types of `allowanceFields`.
unfoldable pub fields_ok : Allowance → Bool
fields_ok a =
    (is_address a.pda && is_address a.owner && is_address a.delegate && is_address a.mint)
    && all_or_none (λ s. ltb 0 s && leb s max_safe_integer) a.period_seconds
    && (timestamp_ok a.period_started_at
        && timestamp_ok a.expires_at
        && timestamp_ok a.paused_at
        && timestamp_ok a.ends_at)
    && all_or_none is_address a.plan_pda
    && leb a.last_slot max_safe_integer
    && leb a.synced_at max_timestamp
    && (leb a.cap_amount u64_max && leb a.spent_in_period u64_max)

pub data SchemaError : Type 0 where
  bad_field : SchemaError
  issues : List Issue → SchemaError

abbrev pub accept : Allowance → List Issue → Result SchemaError Allowance
accept a [] = ok a
accept a (i ∷ is) = throw (issues (i ∷ is))

-- `allowanceSchema.parse`: the refinement runs where the fields have their types.
unfoldable pub allowance_schema : Allowance → Result SchemaError Allowance
allowance_schema a = if fields_ok a then accept a (check_allowance a) else throw bad_field

pub data EventKind : Type 0 where
  created charged rejected paused resumed revoked cancelled : EventKind

abbrev pub is_rejected : EventKind → Bool
is_rejected rejected = true
is_rejected _ = false

abbrev pub is_cancelled : EventKind → Bool
is_cancelled cancelled = true
is_cancelled _ = false

abbrev pub is_charged : EventKind → Bool
is_charged charged = true
is_charged _ = false
