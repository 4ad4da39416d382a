-- ===== src/Chain/Read/Plans/Derived.antt =====
-- packages/chain/src/read.ts: whose plan a subscription is given.
use cancel_chain.Common.{
  ℕ, Among, ◌≡◌, ◌⊎◌, inl, inr, refl, sym, ◌∙◌, String, Bool, true, false, ◌||◌, Option, none, some,
  List, [], ◌∷◌, map, arith, str_eq, eq_iff, if◌then◌else◌, length, includes, includes-add_to,
  add_to, Result, ok, ◌>>=◌, with_ok, Bool-cases,
}
use cancel_chain.Common.Dict.{get, get-set}
use cancel_chain.Chain.Decode.{PlanRef}
use cancel_chain.Chain.Read.{RawProgramAccount, AllowanceReader, Response, ReadError, read_accounts}
use cancel_chain.Chain.Read.Plans.{
  PlanAccount, SubscriptionAccount, starts_with, distinct, to_plan_account, to_plans,
  read_plans_by_address, scan_all_plans, push_some, index_plan, index_plans, resolve_plan_refs,
}

pub distinct-includes :
    (known xs : List String) (x : String)
    → includes (distinct known xs) x ≡ (includes known x || includes xs x)
unfolding distinct includes
distinct-includes known [] x = ground arith
distinct-includes known (y ∷ xs) x =
    ground (arith, distinct-includes (add_to known y) xs x, includes-add_to known y x)

module _ (reader : AllowanceReader) where
  -- An account that is a plan of the program.
  pub record IsPlanAccount (raw : RawProgramAccount) : Type 0 where
    pub owned : raw.account.account_owner ≡ reader.program_address
    pub named : starts_with raw.account.bytes reader.plan_discriminator ≡ true
    pub sized : length raw.account.bytes ≡ reader.plan_size

  to_plan_account_sound :
      (raw : RawProgramAccount) (plan : PlanAccount)
      → to_plan_account reader raw ≡ some plan
      → IsPlanAccount raw
        × (plan.address ≡ raw.pubkey)
        × (plan.mint ≡ reader.plan_mint raw.account.bytes)
  unfolding to_plan_account
  to_plan_account_sound raw plan h =
      ground (arith, eq_iff raw.account.account_owner reader.program_address)

  module _ (floor : Option ℕ) (keys subscribers : List String) where
    -- What the network answered: about the addresses that were asked for, or in the scan.
    abbrev pub IsAnswered : RawProgramAccount → Type 0
    IsAnswered raw =
        ((slot : ℕ) × (accounts : List RawProgramAccount) × (read_accounts reader 1 floor keys
            ≡ ok (slot, accounts))
          × Among raw accounts)
        ⊎ ((response : Response (List RawProgramAccount)) × (reader.all_plan_accounts ≡ ok response)
            × Among raw response.value)

    -- The address of a subscription, derived from a plan of the program and one of the subscribers.
    pub record IsDerived (k : String) (ref : PlanRef) : Type 0 where
      pub raw : RawProgramAccount
      pub subscriber : String
      pub answered : IsAnswered raw
      pub is_plan : IsPlanAccount raw
      pub asked : includes subscribers subscriber ≡ true
      pub derived : reader.find_subscription raw.pubkey subscriber ≡ k
      pub pda_is : ref.pda ≡ raw.pubkey
      pub mint_is : ref.mint ≡ reader.plan_mint raw.account.bytes

    abbrev AreDerived : List (String × PlanRef) → Type 0
    AreDerived refs = (k : String) (ref : PlanRef) → get k refs ≡ some ref → IsDerived k ref

    abbrev IsGenuine : PlanAccount → Type 0
    IsGenuine plan =
        (raw : RawProgramAccount) × IsAnswered raw
        × IsPlanAccount raw
        × (plan.address ≡ raw.pubkey)
        × (plan.mint ≡ reader.plan_mint raw.account.bytes)

    abbrev AreGenuine : List PlanAccount → Type 0
    AreGenuine [] = Unit
    AreGenuine (plan ∷ plans) = IsGenuine plan × AreGenuine plans

    push_some-AreGenuine :
        (raw : RawProgramAccount) (o : Option PlanAccount) (plans : List PlanAccount)
        → IsAnswered raw
        → to_plan_account reader raw ≡ o
        → AreGenuine plans
        → AreGenuine (push_some o plans)
    push_some-AreGenuine raw none plans told h rest = rest
    push_some-AreGenuine raw (some plan) plans told h rest =
        let (is_plan, at, with_mint) = to_plan_account_sound raw plan h in
        ((raw, told, is_plan, at, with_mint), rest)

    to_plans-AreGenuine :
        (raws : List RawProgramAccount)
        → ((raw : RawProgramAccount) → Among raw raws → IsAnswered raw)
        → AreGenuine (to_plans reader raws)
    unfolding to_plans
    to_plans-AreGenuine [] told = tt
    to_plans-AreGenuine (raw ∷ raws) told =
        push_some-AreGenuine raw (to_plan_account reader raw) (to_plans reader raws)
          (told raw (inl refl)) refl (to_plans-AreGenuine raws (λ x among. told x (inr among)))

    index_plan-AreDerived :
        (plan : PlanAccount) (ss : List String) (refs : List (String × PlanRef))
        → IsGenuine plan
        → ((s : String) → includes ss s ≡ true → includes subscribers s ≡ true)
        → AreDerived refs
        → AreDerived (index_plan reader plan ss refs)
    unfolding index_plan includes
    index_plan-AreDerived plan [] refs genuine among h = h
    index_plan-AreDerived plan (s ∷ ss) refs (raw, told, is_plan, at, with_mint) among h =
        index_plan-AreDerived plan ss _ (raw, told, is_plan, at, with_mint)
          (λ x in_ss. among x (ground (arith, in_ss)))
          λ k ref found. elim (Bool-cases (str_eq (reader.find_subscription plan.address s) k)) [
            | inl same ↦
                let is_ref : ref ≡ record { pda = plan.address; mint = plan.mint } = ground (
                  arith,
                  found,
                  get-set (reader.find_subscription plan.address s) k
                      (record { pda = plan.address; mint = plan.mint }) refs,
                ) in
                record {
                  raw = raw;
                  subscriber = s;
                  answered = told;
                  is_plan = is_plan;
                  asked = among s (ground (arith, eq_iff s s));
                  derived = ground (arith, eq_iff (reader.find_subscription plan.address s) k, at);
                  pda_is = ground (arith, is_ref, at);
                  mint_is = ground (arith, is_ref, with_mint);
                }
            | inr other ↦ h k ref (
                ground (
                  arith,
                  found,
                  get-set (reader.find_subscription plan.address s) k
                      (record { pda = plan.address; mint = plan.mint }) refs,
                ))
          ]

    index_plans-AreDerived :
        (plans : List PlanAccount) (ss : List String) (refs : List (String × PlanRef))
        → AreGenuine plans
        → ((s : String) → includes ss s ≡ true → includes subscribers s ≡ true)
        → AreDerived refs
        → AreDerived (index_plans reader plans ss refs)
    unfolding index_plans
    index_plans-AreDerived [] ss refs genuine among h = h
    index_plans-AreDerived (plan ∷ plans) ss refs (one, genuine) among h =
        index_plans-AreDerived plans ss (index_plan reader plan ss refs) genuine among
          (index_plan-AreDerived plan ss refs one among h)

    -- After either of the two reads of the plans.
    plans-AreGenuine :
        (raws : List RawProgramAccount) (plans : List PlanAccount)
        → ((raw : RawProgramAccount) → Among raw raws → IsAnswered raw)
        → ◌≡◌ {A = Result ReadError (List PlanAccount)} (ok (to_plans reader raws)) (ok plans)
        → AreGenuine plans
    plans-AreGenuine raws plans told h =
        let same : plans ≡ to_plans reader raws = ground (arith, h) in
        rw same (to_plans-AreGenuine raws told)

    read_plans-AreGenuine :
        (plans : List PlanAccount)
        → read_plans_by_address reader floor keys ≡ ok plans
        → AreGenuine plans
    unfolding read_plans_by_address
    read_plans-AreGenuine plans h =
        with_ok (read_accounts reader 1 floor keys) _ h
          λ r read h1. plans-AreGenuine r.1 plans (λ raw among. inl (r.0, r.1, read, among)) h1

    scan_all_plans-AreGenuine :
        (plans : List PlanAccount) → scan_all_plans reader ≡ ok plans → AreGenuine plans
    unfolding scan_all_plans
    scan_all_plans-AreGenuine plans h =
        with_ok reader.all_plan_accounts _ h
          λ r read h1. plans-AreGenuine r.value plans (λ raw among. inr (r, read, among)) h1

    empty-AreDerived : AreDerived []
    unfolding get
    empty-AreDerived k ref found = absurd (ground (arith, found))

    same-AreDerived :
        (refs found : List (String × PlanRef))
        → ◌≡◌ {A = Result ReadError (List (String × PlanRef))} (ok refs) (ok found)
        → AreDerived refs
        → AreDerived found
    same-AreDerived refs found h derived k ref get_k =
        let same : found ≡ refs = ground (arith, h) in derived k ref (ground (arith, same, get_k))

    second-AreDerived :
        (again : Bool) (ss : List String) (first refs : List (String × PlanRef))
        → ((s : String) → includes ss s ≡ true → includes subscribers s ≡ true)
        → AreDerived first
        → (if again
            then scan_all_plans reader >>= (λ all_plans. ok (index_plans reader all_plans ss first))
            else ok first)
          ≡ ok refs
        → AreDerived refs
    second-AreDerived false ss first refs among h e = same-AreDerived first refs e h
    second-AreDerived true ss first refs among h e =
        with_ok (scan_all_plans reader) _ e λ plans read e1.
          same-AreDerived _ refs e1
            (index_plans-AreDerived plans ss first (scan_all_plans-AreGenuine plans read) among h)

  -- Whether the plans come from the references in the accounts or from a scan of all plans, the plan
  -- that a subscription is given is an account that the network answered with in that read, is the
  -- program's, has the first byte and the size of a plan, and the subscription's address derives from it and one of the subscribers asked for.
  pub resolve_plan_refs-AreDerived :
      (floor : Option ℕ) (full_plan_scan : Bool) (ss : List SubscriptionAccount)
      (refs : List (String × PlanRef)) (k : String) (ref : PlanRef)
      → resolve_plan_refs reader floor full_plan_scan ss ≡ ok refs
      → get k refs ≡ some ref
      → IsDerived floor (distinct [] (map (λ e. e.delegatee) ss)) (map (λ e. e.subscriber) ss) k ref
  unfolding resolve_plan_refs includes distinct
  resolve_plan_refs-AreDerived floor full [] refs k ref h found =
      same-AreDerived floor [] [] [] refs h (empty-AreDerived floor [] []) k ref found
  resolve_plan_refs-AreDerived floor full (s ∷ ss) refs k ref h found =
      let asked = map (λ e. e.subscriber) (s ∷ ss) in
      let among : (x : String) → includes (distinct [] asked) x ≡ true → includes asked x ≡ true =
        λ x known. sym (distinct-includes [] asked x) ∙ known in
      let keys = distinct [] (map (λ e. e.delegatee) (s ∷ ss)) in
      with_ok (read_plans_by_address reader floor keys) _ h λ plans read h1.
        let first =
          index_plans-AreDerived floor keys asked plans (distinct [] asked) []
            (read_plans-AreGenuine floor keys asked plans read) among
            (empty-AreDerived floor keys asked) in
        second-AreDerived floor keys asked _ (distinct [] asked) _ refs among first h1 k ref found
