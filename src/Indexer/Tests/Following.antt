-- ===== src/Indexer/Tests/Following.antt =====
-- A node with two missed transactions, one of which is not served at first, and a watched wallet.
use cancel_chain.Common.{
  ℕ, zero, suc, ◌≡◌, ◌⊎◌, refl, arith, String, false, Option, none, some, List, [], ◌∷◌, ◌++◌,
  includes, eq_iff, str_eq, if◌then◌else◌, Result, ok, throw,
}
use cancel_chain.Indexer.Reader.{
  SignatureInfo, RecentSignatures, has, Fault, other, read, settle_read, fetch_transaction,
  fetch_attempts, catch_up_page,
}
use cancel_chain.Indexer.Reader.Attempts.{IsOver, read_ends}
use cancel_chain.Indexer.Reader.Recent.{IsRecent}
use cancel_chain.Indexer.Stream.{Loop, handle, catch_up}
use cancel_chain.Indexer.Stream.Pages.{Serves}
use cancel_chain.Indexer.Stream.Forward.{IsAhead, IsUntouched, handle-forward}
use cancel_chain.Indexer.Stream.Whole.{IsWorking, put_all, catch_up-whole}
use cancel_chain.Indexer.Poll.{PolledSignature, PollerOptions, Poller}

abbrev decode : String → Result Fault String
decode tx = ok tx

abbrev transaction : ℕ → String → ℕ → Result Fault (Option String)
transaction turn signature n = ok (some signature)

abbrev sink : List String → String → Result Fault (List String)
sink stored d = ok (stored ++ (d ∷ []))

abbrev second : SignatureInfo
second = record { signature = "second"; slot = 20 }

abbrev third : SignatureInfo
third = record { signature = "third"; slot = 30 }

-- What the node answers about a transaction that it cannot spell.
abbrev unread : ℕ → Result Fault (Option String)
unread n = throw other

read_ends_example :
    let (f1, r1) = read decode [] second unread in
    let (f2, r2) = read decode f1 second unread in
    let (f3, r3) = read decode f2 second unread in
    IsOver decode second r1 ⊎ (IsOver decode second r2 ⊎ IsOver decode second r3)
unfolding read fetch_transaction fetch_attempts settle_read
read_ends_example =
    read_ends decode second [] unread unread unread (λ e. ground arith) (λ e. ground arith)
      (λ e. ground arith)

abbrev memory : RecentSignatures
memory = record { capacity = 2; order = "a" ∷ "b" ∷ []; members = "a" ∷ "b" ∷ [] }

memory-IsRecent : IsRecent memory
unfolding includes
memory-IsRecent = record { same = refl; distinct = (refl, (refl, tt)); bounded = omega arith }

abbrev loop : Loop (List String)
loop = record {
  recent = record { capacity = 5; order = []; members = [] };
  last = some (record { signature = "first"; slot = 10 });
  failures = 0;
  read_failures = [];
  turn = 0;
  store = [];
}

handle-forward_example :
    let (m, e) = handle decode transaction sink loop second in
    IsAhead loop.last m.last × IsUntouched loop m e
handle-forward_example = handle-forward decode transaction sink loop second

abbrev gap : List SignatureInfo
gap = third ∷ second ∷ []

-- The node goes on from an item of the gap.
abbrev since : Option String → Result Fault (List SignatureInfo)
since none = ok gap
since (some s) = if str_eq s "third" then ok (second ∷ []) else ok []

since-Serves : Serves since catch_up_page gap
since-Serves zero h = refl
since-Serves (suc zero) h = refl
since-Serves (suc (suc zero)) h = refl
since-Serves (suc (suc (suc n))) h = absurd (omega (arith, h))

works : IsWorking decode transaction sink (λ s. s) (λ stored d. stored ++ (d ∷ []))
works = record { served = λ turn s n. (s, refl, refl); sunk = λ s d. refl }

catch_up-whole_example :
    (m : Loop (List String)) × (catch_up decode transaction sink (λ n. false) since loop
      ≡ (m, none))
    × (m.store
        ≡ put_all decode transaction sink
            (λ s. s)
            (λ stored d. stored ++ (d ∷ []))
            []
            (second ∷ third ∷ []))
unfolding has includes
catch_up-whole_example =
    catch_up-whole decode transaction sink (λ s. s) (λ stored d. stored ++ (d ∷ [])) works since gap
      loop since-Serves (omega arith)
      (((λ e. ground (arith, eq_iff "second" "third", e)), tt), (tt, tt)) (refl, (refl, tt))

-- The node's pages of the two transactions.
abbrev answer : Option String → Result Fault (List PolledSignature)
answer none =
    ok (
      record { info = third; block_time = none } ∷ record { info = second; block_time = none } ∷ [])
answer (some s) =
    if str_eq s "third" then ok (record { info = second; block_time = none } ∷ []) else ok []

-- One permission of the wallet, with the two transactions, under one authority.
abbrev options : PollerOptions String String (List String)
options = record {
  decode = decode;
  transaction = transaction;
  sink = sink;
  refresh = λ s owner. ok s;
  permissions = λ s owner. record { pda = "permission"; mint = "mint" } ∷ [];
  find_subscription_authority = λ owner mint. "authority";
  settlement_mint = "mint";
  retention_days = some 90;
  signatures_for = λ address until before. answer before;
}

abbrev poller : Poller (List String)
poller = record { store = []; cursors = []; synced_at = []; read_failures = []; turn = 0; log = [] }

abbrev polled : List PolledSignature
polled =
    record { info = third; block_time = none } ∷ record { info = second; block_time = none } ∷ []
