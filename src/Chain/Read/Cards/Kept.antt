-- ===== src/Chain/Read/Cards/Kept.antt =====
-- packages/chain/src/read.ts: what a card says of its account.
use cancel_chain.Common.{
  ℕ, suc, ◌+◌, ◌≡◌, ◌≢◌, ◌↔◌, ◌⊎◌, refl, ◌∙◌, String, true, Option, none, some, List, [], ◌∷◌, map,
  arith, str_eq, eq_iff, if◌then◌else◌, Result, ok, throw,
}
use cancel_chain.Common.Dict.{get}
use cancel_chain.Shared.Allowance.{Allowance, active, exhausted, revoked}
use cancel_chain.Shared.Period.{PeriodError}
use cancel_chain.Shared.Allowance.{SchemaError}
use cancel_chain.Chain.Decode.{
  DecodedDelegation, address_of, DecodeError, undecodable, unsupported_version, missing_plan,
  out_of_range, bad_period, bad_shape, UndecodableReason, PlanRef, to_allowance,
}
use cancel_chain.Chain.Decode.Convert.{IsCardOf, IsSpent, to_allowance-IsCardOf}
use cancel_chain.Chain.Read.{AllowanceReader}
use cancel_chain.Chain.Read.Plans.{AuthorityState, live, closed, rotated}
use cancel_chain.Chain.Read.Cards.{
  UnreadableReason, empty, discriminator, length_differs, version, plan, fields,
  UnreadableAllowance, ReadAllowance, reason_for, context_for, overrule, card, Entry, entry_of,
  shown, refused, convert_one, put, convert,
}

-- How often a text stands in a list.
unfoldable pub count : String → List String → ℕ
count x [] = 0
count x (y ∷ ys) = if str_eq y x then suc (count x ys) else count x ys

-- The addresses that the two lists hold between them.
unfoldable pub count_shown : String → List ReadAllowance × List UnreadableAllowance → ℕ
count_shown x (cards, refusals) =
    count x (map (λ c. c.allowance.pda) cards) + count x (map (λ u. u.address) refusals)

abbrev Gone : Option AuthorityState → Type 0
Gone o = (o ≡ some closed) ⊎ (o ≡ some rotated)

overrule-same :
    (o : Option AuthorityState) (a : Allowance)
    → a.paused_at ≡ none
    → ((overrule o a).pda ≡ a.pda)
      × ((overrule o a).mint ≡ a.mint)
      × ((overrule o a).paused_at ≡ none)
overrule-same none a h = (refl, refl, h)
overrule-same (some live) a h = (refl, refl, h)
overrule-same (some closed) a h = (refl, refl, refl)
overrule-same (some rotated) a h = (refl, refl, refl)

overrule-status :
    (o : Option AuthorityState) (a : Allowance)
    → (a.status ≡ active) ⊎ (a.status ≡ exhausted)
    → (((overrule o a).status ≡ revoked) ↔ Gone o)
      × (((overrule o a).status ≡ active) ↔ (¬ Gone o × (a.status ≢ exhausted)))
overrule-status none a h = ground arith
overrule-status (some live) a h = ground arith
overrule-status (some closed) a h = ground arith
overrule-status (some rotated) a h = ground arith

-- The name of an error: the version and the missing plan have their own, bytes that cannot be told
-- apart are named by what is wrong with them, and all else is a field out of its range.
pub data IsReasonOf : DecodeError → UnreadableReason → Type 0 where
  by_version : (address : String) (v : ℕ) → IsReasonOf (unsupported_version address v) version
  by_plan : (address : String) → IsReasonOf (missing_plan address) plan
  by_no_bytes : (address : String) → IsReasonOf (undecodable address UndecodableReason.empty) empty
  by_first_byte :
      (address : String)
      → IsReasonOf (undecodable address UndecodableReason.discriminator) discriminator
  by_length :
      (address : String)
      → IsReasonOf (undecodable address UndecodableReason.length_differs) length_differs
  by_range : IsReasonOf out_of_range fields
  by_period : (e : PeriodError) → IsReasonOf (bad_period e) fields
  by_shape : (e : SchemaError) → IsReasonOf (bad_shape e) fields

reason_for-IsReasonOf : (e : DecodeError) → IsReasonOf e (reason_for e)
unfolding reason_for
reason_for-IsReasonOf (unsupported_version address v) = by_version address v
reason_for-IsReasonOf (missing_plan address) = by_plan address
reason_for-IsReasonOf (undecodable address UndecodableReason.empty) = by_no_bytes address
reason_for-IsReasonOf (undecodable address UndecodableReason.discriminator) = by_first_byte address
reason_for-IsReasonOf (undecodable address UndecodableReason.length_differs) = by_length address
reason_for-IsReasonOf out_of_range = by_range
reason_for-IsReasonOf (bad_period e) = by_period e
reason_for-IsReasonOf (bad_shape e) = by_shape e

module _ (reader : AllowanceReader) (refs : List (String × PlanRef))
    (authorities : List (String × AuthorityState)) (slot synced_at now : ℕ) where
  -- An authority that backs the permission no longer.
  abbrev pub IsDead : DecodedDelegation → Type 0
  IsDead d =
      (get (address_of d) authorities ≡ some closed)
      ⊎ (get (address_of d) authorities ≡ some rotated)

  -- What a card that is shown says.
  pub record IsShown (d : DecodedDelegation) (c : ReadAllowance) : Type 0 where
    pub at : c.allowance.pda ≡ address_of d
    pub withdrawn : (c.allowance.status ≡ revoked) ↔ IsDead d
    pub chargeable : (c.allowance.status ≡ active) ↔ (¬ IsDead d × ¬ IsSpent d now)
    pub unpaused : c.allowance.paused_at ≡ none
    pub settles : (c.asset_supported ≡ true) ↔ (c.allowance.mint ≡ reader.usdc_mint)

  card-IsShown :
      (d : DecodedDelegation) (a : Allowance)
      → IsCardOf d now a
      → IsShown d (card reader refs authorities slot synced_at now (address_of d) a)
  card-IsShown d a h =
      let o = get (address_of d) authorities in
      let (pda, mint, unpaused) = overrule-same o a h.unpaused in
      let (withdrawn, chargeable) = overrule-status o a h.runs in
      record {
        at = pda ∙ h.at;
        withdrawn = withdrawn;
        chargeable = ground (arith, chargeable, h.runs_out);
        unpaused = unpaused;
        settles = ground (arith, mint, eq_iff a.mint reader.usdc_mint);
      }

  -- What one account becomes.
  abbrev pub IsEntryOf : DecodedDelegation → Entry → Type 0
  IsEntryOf d (shown c) = IsShown d c
  IsEntryOf d (refused u) =
      (u.address ≡ address_of d)
      × IsReasonOf u.error u.reason
      × (to_allowance reader.sdk (context_for reader refs authorities slot synced_at now d) d
          ≡ throw u.error)

  entry-IsEntryOf :
      (d : DecodedDelegation) (r : Result DecodeError Allowance)
      → to_allowance reader.sdk (context_for reader refs authorities slot synced_at now d) d ≡ r
      → IsEntryOf d (entry_of reader refs authorities slot synced_at now (address_of d) r)
  entry-IsEntryOf d (ok a) h = card-IsShown d a (to_allowance-IsCardOf reader.sdk _ d a h).0
  entry-IsEntryOf d (throw e) h = (refl, reason_for-IsReasonOf e, h)

  -- An account becomes a card of its own address that says "revoked" exactly where the authority
  -- behind it is closed or was created anew, and "active" exactly where it is not and the account
  -- is not spent; or it becomes a refusal of its own address that names the reason.
  pub convert_one-IsEntryOf :
      (d : DecodedDelegation)
      → IsEntryOf d (convert_one reader refs authorities slot synced_at now d)
  unfolding convert_one
  convert_one-IsEntryOf d = entry-IsEntryOf d _ refl

  abbrev converted : List DecodedDelegation → List ReadAllowance × List UnreadableAllowance
  converted = convert reader refs authorities slot synced_at now

  put-count :
      (x : String) (d : DecodedDelegation) (e : Entry)
      (p : List ReadAllowance × List UnreadableAllowance)
      → IsEntryOf d e
      → count_shown x (put e p)
        ≡ (if str_eq (address_of d) x then suc (count_shown x p) else count_shown x p)
  unfolding count_shown count
  put-count x d (shown c) (cards, refusals) h = rw (h.at) (ground arith)
  put-count x d (refused u) (cards, refusals) (at, _, _) = rw at (ground arith)

  -- No account is lost and none is made up: every address is in the two lists together as often as
  -- among the accounts that were read.
  pub convert-count :
      (x : String) (ds : List DecodedDelegation)
      → count_shown x (converted ds) ≡ count x (map address_of ds)
  unfolding convert count count_shown
  convert-count x [] = refl
  convert-count x (d ∷ ds) =
      put-count x d _ (converted ds) (convert_one-IsEntryOf d) ∙ ground (arith, convert-count x ds)
