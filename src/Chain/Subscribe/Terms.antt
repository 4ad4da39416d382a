-- ===== src/Chain/Subscribe/Terms.antt =====
-- packages/chain/src/plan.ts and subscribe.ts: from a plan's account to the terms that are signed.
use cancel_chain.Common.{
  ℕ, ◌*◌, ◌/◌, ◌≡◌, ◌≢◌, ap, ◌∙◌, String, Bool, Option, none, some, List, arith, succeeds, ok,
  or_else,
}
use cancel_chain.Common.Int.{ℤ, pos, negsuc}
use cancel_chain.Chain.Decode.{timestamp_from_chain}
use cancel_chain.Chain.Read.{Account}
use cancel_chain.Chain.Instructions.{SubscriptionsSdk, IsoText}
use cancel_chain.Chain.Grant.{timestamp_to_chain, known, InitAuthority}
use cancel_chain.Chain.Plan.{PlanReader, PlanSnapshot, DecodedPlan, moment, read_plan}
use cancel_chain.Chain.Plan.Snapshot.{IsSnapshotOf, read_plan-IsSnapshotOf}
use cancel_chain.Chain.Subscribe.{
  SubscribeInput, SubscribeTerms, subscribe_terms_from, created_seconds,
  build_subscribe_instructions,
}
use cancel_chain.Chain.Subscribe.Bounds.{SubscribeBounds, read_subscribe_bounds}
use cancel_chain.Chain.Subscribe.Trip.{ReadsBack, build_subscribe-read}

-- A moment of the program that is spelled as text is the moment that is written back.
pub to_chain-moment :
    (ts : ℤ) (iso : IsoText) (seconds : ℕ)
    → moment ts ≡ ok (some iso)
    → timestamp_to_chain (some iso) ≡ ok seconds
    → pos seconds ≡ ts
unfolding timestamp_from_chain timestamp_to_chain
to_chain-moment (negsuc n) iso seconds h k = absurd (ground arith)
to_chain-moment (pos n) iso seconds h k =
    let text : iso ≡ some (pos (n * 1000)) = ground arith in
    let back : n * 1000 / 1000 ≡ seconds = ground (arith, text) in
    let same : seconds ≡ n = omega (arith, back) in ap pos same

created_of :
    (ts : ℤ) (c : Option IsoText) (seconds : ℕ)
    → moment ts ≡ ok c
    → created_seconds c ≡ ok seconds
    → pos seconds ≡ ts
created_of ts none seconds h k = absurd (ground arith)
created_of ts (some iso) seconds h k = to_chain-moment ts iso seconds h (ground arith)

abbrev pub terms_of : DecodedPlan → SubscribeTerms
terms_of d = record {
  mint = d.mint;
  amount = d.amount;
  period_hours = d.period_hours;
  created_at = d.created_at;
}

module _ (reader : PlanReader) (pda : String) where
  terms-account :
      (d : DecodedPlan) (s : PlanSnapshot) (terms : SubscribeTerms)
      → IsSnapshotOf reader pda d s
      → subscribe_terms_from s ≡ ok terms
      → terms ≡ terms_of d
  unfolding subscribe_terms_from
  terms-account d s terms is h =
      let (created, at) = succeeds (created_seconds s.created_at) (λ e fails. ground arith) in
      let same : terms ≡ record {
        mint = s.mint;
        amount = s.amount;
        period_hours = s.period_hours;
        created_at = pos created;
      } =
        ground (arith, at) in
      let moment_of = created_of d.created_at s.created_at created is.created at in
      ground (arith, same, moment_of, is.mint, is.amount, is.period)

  module _ {I : Type 0} (sdk : SubscriptionsSdk I) (reads : ReadsBack sdk)
      (valid : String → Bool) where
    -- Where what the SDK builds parses back and no authority has the number that stands for an
    -- unknown one, whoever subscribes to a plan that was read from its account signs the
    -- account's own mint, amount, hours and creation time, to the second: nothing is lost between
    -- the account, the snapshot on the screen and the instruction.
    pub read_plan-signed :
        (input : SubscribeInput) (init : Option InitAuthority) (is : List I)
        → read_plan reader pda ≡ ok input.plan
        → build_subscribe_instructions sdk valid input init ≡ ok is
        → ((id : ℕ) → input.authority_init_id ≡ known id → id ≢ sdk.unknown_init_id)
        → (a : Account) × (reader.get_account_info pda ≡ ok (some a))
          × (b : SubscribeBounds) × (read_subscribe_bounds sdk is
                (or_else input.program_address sdk.default_program)
              ≡ ok b)
          × (b.plan ≡ pda)
          × (b.terms ≡ terms_of (reader.decode_plan a.bytes))
    read_plan-signed input init is read h differs =
        let (a, answer, _, _, _, shown) = read_plan-IsSnapshotOf reader pda input.plan read in
        let (terms, found, b, back, asked) =
          build_subscribe-read sdk reads input valid init is h differs in
        (
          a,
          answer,
          b,
          back,
          asked.plan ∙ shown.at,
          asked.pinned ∙ terms-account (reader.decode_plan a.bytes) input.plan terms shown found,
        )
