-- ===== src/Shared/PlanView.antt =====
-- packages/shared/src/planView.ts: the terms on which a plan's catalog row, its account and a
-- transaction are compared. Dates are text; `date_parse` is the language's `Date.parse`, with
-- `none` for its NaN.
use cancel_chain.Common.{
  ℕ, String, ◌≡◌, ◌↔◌, Bool, true, false, not, Option, none, some, List, [], ◌∷◌, arith, ◌==◌,
  str_eq, eq_iff, filter,
}
use cancel_chain.Shared.Primitives.{codes, to_u64}

pub data PlanTermField : Type 0 where
  mint amount period_seconds created_at : PlanTermField

pub record PlanTerms : Type 0 where
  pub mint : String
  pub amount : String
  pub period_seconds : ℕ
  pub created_at : Option String

abbrev pub plan_term_fields : List PlanTermField
plan_term_fields = mint ∷ amount ∷ period_seconds ∷ created_at ∷ []

module _ (date_parse : String → Option ℕ) where
  -- NaN equals nothing, itself included.
  abbrev same_moment : Option ℕ → Option ℕ → Bool
  same_moment none b = false
  same_moment (some a) none = false
  same_moment (some a) (some b) = a == b

  unfoldable pub same_instant : Option String → Option String → Bool
  same_instant none none = true
  same_instant none (some b) = false
  same_instant (some a) none = false
  same_instant (some a) (some b) = same_moment (date_parse a) (date_parse b)

  unfoldable pub differs : PlanTerms → PlanTerms → PlanTermField → Bool
  unfolding same_instant to_u64
  differs asked actual created_at = not (same_instant asked.created_at actual.created_at)
  differs asked actual amount = not (to_u64 (codes asked.amount) == to_u64 (codes actual.amount))
  differs asked actual mint = not (str_eq asked.mint actual.mint)
  differs asked actual period_seconds = not (asked.period_seconds == actual.period_seconds)

  unfoldable pub plan_terms_divergence : PlanTerms → PlanTerms → List PlanTermField
  unfolding differs
  plan_terms_divergence asked actual = filter (differs asked actual) plan_term_fields

  -- No field diverges exactly when the assets and the periods are equal, the amounts are equal as
  -- numbers, however they are spelled, and the creation times are the same instant.
  pub divergence_nil_iff :
      (asked actual : PlanTerms)
      → (plan_terms_divergence asked actual ≡ []) ↔ (
          (asked.mint ≡ actual.mint)
          × (to_u64 (codes asked.amount) ≡ to_u64 (codes actual.amount))
          × (asked.period_seconds ≡ actual.period_seconds)
          × (same_instant asked.created_at actual.created_at ≡ true))
  unfolding plan_terms_divergence
  divergence_nil_iff asked actual = ground (arith, eq_iff asked.mint actual.mint)

  same_instant_symm : (a b : Option String) → same_instant a b ≡ same_instant b a
  unfolding same_instant
  same_instant_symm a b = ground arith

  -- It does not matter which of the two sides is asked and which is actual.
  pub divergence_symm :
      (asked actual : PlanTerms)
      → plan_terms_divergence asked actual ≡ plan_terms_divergence actual asked
  unfolding plan_terms_divergence
  divergence_symm asked actual = ground (
    arith,
    eq_iff asked.mint actual.mint,
    eq_iff actual.mint asked.mint,
    same_instant_symm asked.created_at actual.created_at,
  )
