-- ===== src/Indexer/Notify/Once.antt =====
-- apps/indexer/src/notify.ts: how often one occasion is told to one browser.
use cancel_chain.Common.{
  ℕ, suc, ◌+◌, ◌≡◌, ◌↔◌, ◌⊎◌, ◌≤◌, refl, ap, ◌∙◌, subst, inl, inr, Bool, true, false, not, List, [],
  ◌∷◌, ◌++◌, arith, eq_iff, ==_iff, Bool-cases, filter, ◌==◌, succeeds, Result, ok, ◌&&◌, ◌||◌,
  if◌then◌else◌,
}
use cancel_chain.Indexer.Retention.{PushKind, Occasion, event_ref, period_ref, Claim}
use cancel_chain.Indexer.Notify.{Delivery, same_kind, same_occasion, same_claim, claimed}
use cancel_chain.Indexer.Notify.Deliver.{
  Outcome, delivered, gone, refused, unreachable, Pass, has_id, without_claim, sent_once, settle,
  NotifyError, deliver, deliver_all,
}

same_kind_iff : (a b : PushKind) → (same_kind a b ≡ true) ↔ (a ≡ b)
same_kind_iff a b = ground arith

same_occasion_iff : (a b : Occasion) → (same_occasion a b ≡ true) ↔ (a ≡ b)
same_occasion_iff (event_ref m) (event_ref n) = ground arith
same_occasion_iff (period_ref p s) (period_ref q t) = ground (arith, eq_iff p q)
same_occasion_iff (event_ref m) (period_ref q t) = ground arith
same_occasion_iff (period_ref p s) (event_ref n) = ground arith

pub same_claim_iff : (a b : Claim) → (same_claim a b ≡ true) ↔ (a ≡ b)
unfolding same_claim
same_claim_iff a b = ground (
  arith,
  same_kind_iff a.kind b.kind,
  same_occasion_iff a.occasion b.occasion,
  ==_iff a.subscription_id b.subscription_id,
)

-- An attempt that is not made again.
abbrev pub is_final : Outcome → Bool
is_final unreachable = false
is_final _ = true

-- How many attempts of one claim were final.
unfoldable pub told : Claim → List (Claim × Outcome) → ℕ
told c [] = 0
told c ((x, o) ∷ sends) = if same_claim c x && is_final o then suc (told c sends) else told c sends

told-append :
    (c x : Claim) (o : Outcome) (sends : List (Claim × Outcome))
    → told c (sends ++ ((x, o) ∷ [])) ≡ told c sends + told c ((x, o) ∷ [])
unfolding told
told-append c x o [] = ground arith
told-append c x o ((y, r) ∷ sends) = ground (arith, told-append c x o sends)

claimed-append :
    (c x : Claim) (claims : List Claim)
    → claimed (claims ++ (x ∷ [])) c ≡ (claimed claims c || same_claim c x)
unfolding claimed
claimed-append c x [] = ground arith
claimed-append c x (y ∷ claims) = ground (arith, claimed-append c x claims)

claimed-without :
    (c x : Claim) (claims : List Claim)
    → claimed (without_claim x claims) c ≡ (claimed claims c && not (same_claim c x))
unfolding claimed
claimed-without c x [] = refl
claimed-without c x (y ∷ claims) =
    ground (
      arith,
      claimed-without c x claims,
      same_claim_iff x y,
      same_claim_iff c y,
      same_claim_iff c x,
    )

claimed-cascade :
    (c : Claim) (id : ℕ) (claims : List Claim)
    → claimed (filter (λ x. not (x.subscription_id == id)) claims) c
      ≡ (claimed claims c && not (c.subscription_id == id))
unfolding claimed
claimed-cascade c id [] = refl
claimed-cascade c id (y ∷ claims) = ground (arith, claimed-cascade c id claims, same_claim_iff c y)

-- Nothing more is sent for the claim in this pass.
abbrev pub IsQuiet : Claim → Pass → Type 0
IsQuiet c p = (claimed p.db.claims c ≡ true) ⊎ (has_id c.subscription_id p.removed ≡ true)

abbrev IsOnce : Claim → Pass → Type 0
IsOnce c p = (told c p.sends ≡ 0) ⊎ ((told c p.sends ≡ 1) × IsQuiet c p)

module _ (c x : Claim) (p : Pass) where
  IsQuiet-settle :
      (o : Outcome)
      → same_claim c x ≡ false
      → IsQuiet c p
      → IsQuiet c (settle (sent_once p x o) x o)
  unfolding settle
  IsQuiet-settle delivered other q = ground (arith, claimed-append c x p.db.claims)
  IsQuiet-settle refused other q = ground (arith, claimed-append c x p.db.claims)
  IsQuiet-settle unreachable other q =
      ground (arith, claimed-append c x p.db.claims, claimed-without c x (p.db.claims ++ (x ∷ [])))
  IsQuiet-settle gone other q = ground (
    arith,
    claimed-append c x p.db.claims,
    claimed-cascade c x.subscription_id (p.db.claims ++ (x ∷ [])),
  )

  told-settle :
      (o : Outcome)
      → told c (settle (sent_once p x o) x o).sends ≡ told c p.sends + told c ((x, o) ∷ [])
  unfolding settle
  told-settle delivered = told-append c x delivered p.sends
  told-settle refused = told-append c x refused p.sends
  told-settle unreachable = told-append c x unreachable p.sends
  told-settle gone = told-append c x gone p.sends

  -- A final attempt leaves its own claim quiet.
  IsQuiet-own : (o : Outcome) → is_final o ≡ true → c ≡ x → IsQuiet c (settle (sent_once p x o) x o)
  unfolding settle
  IsQuiet-own delivered f same = ground (arith, claimed-append c x p.db.claims, same_claim_iff c x)
  IsQuiet-own refused f same = ground (arith, claimed-append c x p.db.claims, same_claim_iff c x)
  IsQuiet-own unreachable f same = absurd (ground arith)
  IsQuiet-own gone f same = ground (arith, same)

module _ (send : List (Claim × Outcome) → Delivery → Result NotifyError Outcome) (c : Claim) where
  -- What one delivery does to a claim's story.
  abbrev Kept : Pass → Pass → Type 0
  Kept p q =
      (IsOnce c p → IsOnce c q) × (IsQuiet c p → IsQuiet c q × (told c q.sends ≡ told c p.sends))

  sent_other :
      (p : Pass) (x : Claim) (o : Outcome)
      → same_claim c x ≡ false
      → Kept p (settle (sent_once p x o) x o)
  unfolding told
  sent_other p x o other =
      let same = told-settle c x p o in
      let quiet = IsQuiet-settle c x p o other in
      (λ once. ground (arith, same, quiet), λ q. (quiet q, ground (arith, same)))

  sent_own :
      (p : Pass) (x : Claim) (o : Outcome)
      → c ≡ x
      → claimed p.db.claims x ≡ false
      → has_id x.subscription_id p.removed ≡ false
      → Kept p (settle (sent_once p x o) x o)
  unfolding told
  sent_own p x o own new there =
      let loud : IsQuiet c p → ⊥ = λ q. ground (arith, q) in
      let same = told-settle c x p o in
      let after = settle (sent_once p x o) x o in
      let quiet : is_final o ≡ true → IsQuiet c after = λ f. IsQuiet-own c x p o f own in
      (
        λ once.
            ground (arith, once, loud, same, quiet, same_claim_iff c x, Bool-cases (is_final o)),
        λ q. absurd (loud q),
      )

  deliver-Kept : (p q : Pass) (d : Delivery) → deliver send p d ≡ ok q → Kept p q
  unfolding deliver
  deliver-Kept p q d h =
      elim (Bool-cases (has_id d.claim.subscription_id p.removed || claimed p.db.claims d.claim)) [
        | inl skip ↦
            let same : p ≡ q = ground arith in
            subst (Kept p) same (λ once. once, λ quiet. (quiet, refl))
        | inr take ↦
            let (o, sent) = succeeds (send p.sends d) (λ e fails. ground arith) in
            let same : settle (sent_once p d.claim o) d.claim o ≡ q = ground (arith, sent) in
            subst (Kept p) same (elim (Bool-cases (same_claim c d.claim)) [
              | inl own ↦
                  sent_own p d.claim o (ground (arith, same_claim_iff c d.claim)) (ground arith)
                    (ground arith)
              | inr other ↦ sent_other p d.claim o other
            ])
      ]

  deliver_all-Kept : (p q : Pass) (ds : List Delivery) → deliver_all send p ds ≡ ok q → Kept p q
  unfolding deliver_all
  deliver_all-Kept p q [] h =
      let same : p ≡ q = ground arith in subst (Kept p) same (λ once. once, λ quiet. (quiet, refl))
  deliver_all-Kept p q (d ∷ ds) h =
      let (m, one) = succeeds (deliver send p d) (λ e fails. ground arith) in
      let (once, quiet) = deliver-Kept p m d one in
      let (onces, quiets) = deliver_all-Kept m q ds (ground (arith, one)) in
      (
        λ o. onces (once o),
        λ k. let (l, same) = quiet k in let (j, sames) = quiets l in (j, sames ∙ same),
      )

  -- In one pass, whatever the deliveries, their order and the push service's answers, an occasion
  -- is told to a browser at most once, an unanswered attempt aside; and not at all where it was
  -- claimed before.
  pub deliver_all-once :
      (p q : Pass) (ds : List Delivery)
      → p.sends ≡ []
      → deliver_all send p ds ≡ ok q
      → (told c q.sends ≤ 1) × (claimed p.db.claims c ≡ true → told c q.sends ≡ 0)
  unfolding told
  deliver_all-once p q ds fresh h =
      let (once, quiet) = deliver_all-Kept p q ds h in
      let start : told c p.sends ≡ 0 = ap (told c) fresh in
      let ended : IsOnce c q = once (inl start) in
      (ground (arith, ended), λ before. let (_, same) = quiet (inl before) in same ∙ start)
