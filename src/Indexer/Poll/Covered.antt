-- ===== src/Indexer/Poll/Covered.antt =====
-- apps/indexer/src/poll.ts: what a cursor that moved says, and what a poll that failed leaves.
use cancel_chain.Common.{
  ℕ, ◌≡◌, ◌⊎◌, refl, subst, ap, sym, inl, inr, String, Bool, true, List, [], ◌++◌, arith,
  if◌then◌else◌, false, length, includes, includes-append, All, All-imp, Result, ok, throw,
}
use cancel_chain.Common.Dict.{get, has}
use cancel_chain.Chain.Read.Plans.{values}
use cancel_chain.Indexer.Reader.{SignatureInfo, Fault, read}
use cancel_chain.Indexer.Stream.Forward.{IsAhead, IsAhead-refl}
use cancel_chain.Indexer.Poll.{
  PolledSignature, PollerOptions, Poller, Ended, finished, aborted, failed, Found, addresses_of,
  settle, poll_found, poll_refreshed, poll_wallet, advance_all, mark_synced, sort_by_slot,
}
use cancel_chain.Indexer.Poll.Addresses.{IsAddressOf}
use cancel_chain.Indexer.Poll.Kept.{
  advance_all-IsAhead, signatures, sort-includes, Keyed, includes-values,
}
use cancel_chain.Indexer.Poll.Reads.{read_all_at, Same, Reads, read_all-Reads}
use cancel_chain.Indexer.Poll.Gathered.{
  collect_at, gather_at, Gathers, HeadFound, IsGathered, gather-IsGathered,
}

module _ {T D S : Type 0} (o : PollerOptions T D S) where
  -- Everything that the node told of an address, from its cursor on, is read.
  abbrev pub AddressRead : ℕ → List (String × SignatureInfo) → List String → String → Type 0
  AddressRead now cursors log address =
      (items : List PolledSignature) × (collect_at o now address (get address cursors) ≡ ok items)
      × All (λ x. includes log x.info.signature ≡ true) items

  abbrev pub HeadRead : List String → String × SignatureInfo → Type 0
  HeadRead log (address, head) = includes log head.signature ≡ true

  -- The same, of the addresses that the code asks about, by what it gathered.
  abbrev Covers : Poller S → String → ℕ → Result Fault S → Poller S × Result Fault ℕ → Type 0
  Covers p owner now stored (q, r) =
      Same o p q
      ⊎ ((s : S) × (stored ≡ ok s)
          × (heads : List (String × SignatureInfo)) × All (AddressRead now p.cursors q.log)
              (addresses_of o s owner)
          × All (HeadRead q.log) heads
          × (q.cursors ≡ advance_all heads p.cursors))

  -- What is stored of the wallet when its addresses are looked up: read again from the network where
  -- the wallet was not known.
  abbrev pub IsStore : Poller S → String → Bool → S → Type 0
  IsStore p owner true s = s ≡ p.store
  IsStore p owner false s = o.refresh p.store owner ≡ ok s

  -- Either the cursors and the mark of the wallet stay, or the history of every address of the
  -- wallet is read.
  abbrev pub IsCovered :
      (String → List PolledSignature)
      → Poller S
      → String
      → Bool
      → Poller S × Result Fault ℕ
      → Type 0
  IsCovered young p owner known (q, r) =
      Same o p q
      ⊎ ((s : S) × IsStore p owner known s
          × ((a : String)
              → IsAddressOf o owner s a
              → All (λ x. includes q.log x.info.signature ≡ true) (young a))
          × (heads : List (String × SignatureInfo)) × All (HeadRead q.log) heads
          × (q.cursors ≡ advance_all heads p.cursors))

  in_log :
      (log : List String) (g : Found) (y : String)
      → All Keyed g.found
      → has y g.found ≡ true
      → includes (log ++ signatures (sort_by_slot (values g.found))) y ≡ true
  in_log log g y keyed h =
      let xs = values g.found in
      ground (
        arith,
        includes-append log (signatures (sort_by_slot xs)) y,
        sort-includes xs y,
        includes-values g.found y keyed h,
      )

  module _ (p : Poller S) (owner : String) (now : ℕ) (stored : Result Fault S) where
    -- What the log of a finished reading holds.
    settled :
        (s : S) (g : Found) (q : Poller S)
        → stored ≡ ok s
        → IsGathered o now p.cursors (addresses_of o s owner) (record { heads = []; found = [] }) g
        → q.cursors ≡ p.cursors
        → q.log ≡ p.log ++ signatures (sort_by_slot (values g.found))
        → Covers p owner now stored (
          record q {
            cursors = advance_all g.heads q.cursors;
            synced_at = mark_synced owner now q.synced_at;
          },
          ok (length g.found),
        )
    settled s g q is gathered same log =
        let keyed = gathered.keyed tt in
        let read : (y : String) → has y g.found ≡ true → includes q.log y ≡ true =
          λ y h. subst (λ l. includes l y ≡ true) (sym log) (in_log p.log g y keyed h) in
        inr (
          s,
          is,
          g.heads,
          All-imp (Gathers o now p.cursors g) (AddressRead now p.cursors q.log)
              (λ address h.
                let (items, at, found) = h in
                (
                  items,
                  at,
                  All-imp (λ x. has x.info.signature g.found ≡ true)
                      (λ x. includes q.log x.info.signature ≡ true) (λ x k. read x.info.signature k)
                      items found,
                ))
              _ gathered.each,
          All-imp (HeadFound o g) (HeadRead q.log) (λ entry k. read ((entry.1).signature) k) g.heads
              (gathered.heads tt),
          ap (advance_all g.heads) same,
        )

    settle-Covers :
        (s : S) (g : Found)
        → stored ≡ ok s
        → IsGathered o now p.cursors (addresses_of o s owner) (record { heads = []; found = [] }) g
        → (end : Poller S × Ended) → Reads o p (signatures (sort_by_slot (values g.found))) end
        → Covers p owner now stored (settle o g owner now end)
    settle-Covers s g is gathered (q, finished) ((same, _), log) =
        settled s g q is gathered same log
    settle-Covers s g is gathered (q, aborted) same = inl same
    settle-Covers s g is gathered (q, failed e) same = inl same

    found-Covers :
        (stop : ℕ → Bool) (s : S) (r : Result Fault Found)
        → stored ≡ ok s
        → gather_at o now p.cursors (addresses_of o s owner) (record { heads = []; found = [] }) ≡ r
        → Covers p owner now stored (poll_found o stop (record p { store = s }) owner now r)
    found-Covers stop s (throw e) is h = inl (refl, refl)
    found-Covers stop s (ok g) is h =
        settle-Covers s g is (gather-IsGathered o now p.cursors _ _ g h)
          (read_all_at o stop (record p { store = s }) (sort_by_slot (values g.found)))
          (read_all-Reads o stop (record p { store = s }) (sort_by_slot (values g.found)))

    refreshed-Covers :
        (stop : ℕ → Bool) (r : Result Fault S)
        → stored ≡ r
        → Covers p owner now stored (poll_refreshed o stop p owner now r)
    refreshed-Covers stop (throw e) is = inl (refl, refl)
    refreshed-Covers stop (ok s) is = found-Covers stop s _ is refl

  module _ (p : Poller S) (owner : String) (now : ℕ) where
    abbrev stored_of : Bool → Result Fault S
    stored_of known = if known then ok p.store else o.refresh p.store owner

    poll_wallet-Covers :
        (stop : ℕ → Bool) (known : Bool)
        → Covers p owner now (stored_of known) (poll_wallet o stop p known owner now)
    unfolding poll_wallet
    poll_wallet-Covers stop known = refreshed-Covers p owner now (stored_of known) stop _ refl

    Covers-IsAhead :
        (stored : Result Fault S) (out : Poller S × Result Fault ℕ)
        → Covers p owner now stored out
        → (a : String) → IsAhead (get a p.cursors) (get a ((out.0).cursors))
    Covers-IsAhead stored out (inl (same, _)) a =
        subst (λ c. IsAhead (get a p.cursors) (get a c)) (sym same) (IsAhead-refl (get a p.cursors))
    Covers-IsAhead stored out (inr (s, is, heads, _, _, moved)) a =
        subst (λ c. IsAhead (get a p.cursors) (get a c)) (sym moved)
          (advance_all-IsAhead a heads p.cursors)

    -- And no cursor goes back.
    pub poll_wallet-forward :
        (stop : ℕ → Bool) (known : Bool) (a : String)
        → IsAhead (get a p.cursors) (get a (((poll_wallet o stop p known owner now).0).cursors))
    poll_wallet-forward stop known =
        Covers-IsAhead (stored_of known) (poll_wallet o stop p known owner now)
          (poll_wallet-Covers stop known)
