-- ===== src/Indexer/Poll/Gathered.antt =====
-- apps/indexer/src/poll.ts: what the reading of all addresses of a wallet finds.
use cancel_chain.Common.{
  ℕ, ◌≡◌, subst, String, true, Option, List, [], ◌∷◌, arith, All, All-imp, succeeds, Result, ok,
}
use cancel_chain.Common.Dict.{get, has, All-set}
use cancel_chain.Indexer.Reader.{SignatureInfo, Fault}
use cancel_chain.Indexer.Poll.{
  PolledSignature, PollerOptions, Found, head_of, find_all, collect, gather,
}
use cancel_chain.Indexer.Poll.Kept.{Keyed, find_all-Keyed, find_all-has, find_all-own}

module _ {T D S : Type 0} (o : PollerOptions T D S) where
  abbrev pub collect_at : ℕ → String → Option SignatureInfo → Result Fault (List PolledSignature)
  collect_at = collect o

  abbrev pub gather_at :
      ℕ → List (String × SignatureInfo) → List String → Found → Result Fault Found
  gather_at = gather o

  -- The items of an address are among those that were found.
  abbrev pub Gathers : ℕ → List (String × SignatureInfo) → Found → String → Type 0
  Gathers now cursors g address =
      (items : List PolledSignature) × (collect_at now address (get address cursors) ≡ ok items)
      × All (λ x. has x.info.signature g.found ≡ true) items

  abbrev pub HeadFound : Found → String × SignatureInfo → Type 0
  HeadFound g (address, head) = has head.signature g.found ≡ true

  heads_found :
      (address : String) (items : List PolledSignature) (f : Found)
      → All (HeadFound f) f.heads
      → All
          (HeadFound
            (record { heads = head_of address items f.heads; found = find_all items f.found }))
          (head_of address items f.heads)
  unfolding find_all
  heads_found address [] f h = h
  heads_found address (newest ∷ items) f h =
      let all = newest ∷ items in
      let (own, _) = find_all-own all f.found in
      let Seen : String × SignatureInfo → Type 0 =
        λ entry. has ((entry.1).signature) (find_all all f.found) ≡ true in
      All-set Seen address newest.info f.heads own (
        All-imp (HeadFound f) Seen (λ entry k. find_all-has all f.found ((entry.1).signature) k)
          f.heads h)

  pub record IsGathered (now : ℕ) (cursors : List (String × SignatureInfo))
      (addresses : List String) (f g : Found) : Type 0 where
    pub each : All (Gathers now cursors g) addresses
    pub keeps : (y : String) → has y f.found ≡ true → has y g.found ≡ true
    pub keyed : All Keyed f.found → All Keyed g.found
    pub heads : All (HeadFound f) f.heads → All (HeadFound g) g.heads

  pub gather-IsGathered :
      (now : ℕ) (cursors : List (String × SignatureInfo)) (addresses : List String) (f g : Found)
      → gather_at now cursors addresses f ≡ ok g
      → IsGathered now cursors addresses f g
  unfolding gather
  gather-IsGathered now cursors [] f g h =
      let same : f ≡ g = ground arith in
      subst (IsGathered now cursors [] f) same
        (record { each = tt; keeps = λ y k. k; keyed = λ k. k; heads = λ k. k })
  gather-IsGathered now cursors (address ∷ addresses) f g h =
      let (items, at) =
        succeeds (collect_at now address (get address cursors)) (λ e fails. ground arith) in
      let next : Found = record {
        heads = head_of address items f.heads;
        found = find_all items f.found;
      } in
      let rest = gather-IsGathered now cursors addresses next g (ground (arith, at)) in
      record {
        each = (
          (
            items,
            at,
            All-imp (λ x. has x.info.signature (find_all items f.found) ≡ true)
                (λ x. has x.info.signature g.found ≡ true) (λ x k. rest.keeps x.info.signature k)
                items (find_all-own items f.found),
          ),
          rest.each,
        );
        keeps = λ y k. rest.keeps y (find_all-has items f.found y k);
        keyed = λ k. rest.keyed (find_all-Keyed items f.found k);
        heads = λ k. rest.heads (heads_found address items f k);
      }
