-- ===== src/Indexer/Stream/Whole.antt =====
-- apps/indexer/src/subscribe.ts: what a catching up comes to where nothing fails.
use mathlib.Core.List.{reverse}
use cancel_chain.Common.{
  ℕ, suc, ◌*◌, ◌≡◌, ◌≢◌, ◌<◌, refl, ◌⊎◌, inl, inr, String, true, false, Option, none, some, List,
  [], ◌∷◌, ◌++◌, arith, eq_iff, Bool-cases, length, includes, includes-append, All, All-imp,
  All-both, Result, ok,
}
use cancel_chain.Common.Dict.{delete}
use cancel_chain.Indexer.Reader.{
  SignatureInfo, RecentSignatures, has, add, trim, without, Fault, decoded, read, fetch_attempts,
  fetch_transaction, settle_read, catch_up_page, catch_up_max_pages,
}
use cancel_chain.Indexer.Stream.{Loop, finished, handle_read, handle, handle_all, catch_up}
use cancel_chain.Indexer.Stream.Pages.{Serves, collect-whole}

includes-without :
    (x y : String) (xs : List String) → includes (without x xs) y ≡ true → includes xs y ≡ true
unfolding includes
includes-without x y [] h = h
includes-without x y (z ∷ xs) h = ground (arith, includes-without x y xs)

trim-has :
    (r : RecentSignatures) (order : List String) (y : String)
    → has (trim r order) y ≡ true
    → has r y ≡ true
unfolding trim has
trim-has r [] y h = h
trim-has r (x ∷ order) y h = ground (arith, includes-without x y r.members)

has-grown :
    (r : RecentSignatures) (x y : String)
    → has (record r { order = r.order ++ (x ∷ []); members = r.members ++ (x ∷ []) }) y ≡ true
    → (has r y ≡ true) ⊎ (x ≡ y)
unfolding has includes
has-grown r x y h = ground (arith, includes-append r.members (x ∷ []) y, eq_iff x y)

-- A memory holds nothing but what was added.
add-has :
    (r : RecentSignatures) (x y : String) → has (add r x) y ≡ true → (has r y ≡ true) ⊎ (x ≡ y)
unfolding add
add-has r x y h = elim (Bool-cases (has r x)) [
  | inl old ↦ inl (ground (arith, old))
  | inr new ↦
      let order = r.order ++ (x ∷ []) in
      let members = r.members ++ (x ∷ []) in
      let grown : RecentSignatures = record {
        capacity = r.capacity;
        order = order;
        members = members;
      } in
      let kept : has (trim grown order) y ≡ true = ground (arith, new) in
      has-grown r x y (trim-has grown order y kept)
]

-- No signature twice.
abbrev pub AreDistinct : List SignatureInfo → Type 0
AreDistinct [] = Unit
AreDistinct (x ∷ xs) = All (λ y. x.signature ≢ y.signature) xs × AreDistinct xs

module _ {T D S : Type 0} (decode : T → Result Fault D)
    (transaction : ℕ → String → ℕ → Result Fault (Option T)) (sink : S → D → Result Fault S)
    (made : String → D) (put : S → D → S) where
  -- A node that serves every transaction at once, each of which decodes, and a sink that never
  -- throws.
  pub record IsWorking : Type 0 where
    pub served :
        (turn : ℕ) (s : String) (n : ℕ)
        → (tx : T) × (transaction turn s n ≡ ok (some tx)) × (decode tx ≡ ok (made s))
    pub sunk : (s : S) (d : D) → sink s d ≡ ok (put s d)

  abbrev pub put_all : S → List SignatureInfo → S
  put_all s [] = s
  put_all s (x ∷ xs) = put_all (put s (made x.signature)) xs

  module _ (works : IsWorking) where
    read-made :
        (failures : List (String × ℕ)) (item : SignatureInfo) (turn : ℕ)
        → read decode failures item (transaction turn item.signature)
          ≡ (delete item.signature failures, ok (decoded (made item.signature)))
    unfolding read settle_read fetch_transaction fetch_attempts
    read-made failures item turn =
        let (tx, answer, d) = works.served turn item.signature 9 in ground (arith, answer, d)

    abbrev after : Loop S → SignatureInfo → Loop S
    after l item =
        finished decode transaction sink
          (record l {
            read_failures = delete item.signature l.read_failures;
            turn = suc l.turn;
            store = put l.store (made item.signature);
          })
          item

    handle-new :
        (l : Loop S) (item : SignatureInfo)
        → has l.recent item.signature ≡ false
        → handle decode transaction sink l item ≡ (after l item, none)
    unfolding handle handle_read
    handle-new l item new =
        ground
          (arith, read-made l.read_failures item l.turn, works.sunk l.store (made item.signature))

    abbrev New : Loop S → SignatureInfo → Type 0
    New l x = has l.recent x.signature ≡ false

    still-New :
        (l : Loop S) (item x : SignatureInfo)
        → item.signature ≢ x.signature
        → New l x
        → New (after l item) x
    still-New l item x other new =
        ground (arith, add-has l.recent item.signature x.signature, other)

    handle_all-put :
        (l : Loop S) (items : List SignatureInfo)
        → AreDistinct items
        → All (New l) items
        → (m : Loop S) × (handle_all decode transaction sink (λ n. false) l items ≡ (m, none))
          × (m.store ≡ put_all l.store items)
    unfolding handle_all
    handle_all-put l [] distinct new = (l, refl, refl)
    handle_all-put l (x ∷ xs) (others, distinct) (first, new) =
        let (m, ends, stores) = handle_all-put (after l x) xs distinct (
          All-imp (λ y. (x.signature ≢ y.signature) × New l y) (New (after l x))
            (λ y h. let (o, n) = h in still-New l x y o n) xs
            (All-both (λ y. x.signature ≢ y.signature) (New l) xs others new)) in
        (m, ground (arith, handle-new l x first, ends), stores)

    -- Where fewer than ten thousand transactions are missing, the node serves them in pages, newest
    -- first, none of them twice, each is served and decodes, storing never throws, nothing of them is
    -- remembered yet and nobody stops the indexer, catching up ends, and has stored every missed
    -- transaction, each once, the oldest first, and nothing else.
    pub catch_up-whole :
        (since : Option String → Result Fault (List SignatureInfo)) (gap : List SignatureInfo)
        (l : Loop S)
        → Serves since catch_up_page gap
        → length gap < catch_up_max_pages * catch_up_page
        → AreDistinct (reverse gap)
        → All (New l) (reverse gap)
        → (m : Loop S) × (catch_up decode transaction sink (λ n. false) since l ≡ (m, none))
          × (m.store ≡ put_all l.store (reverse gap))
    unfolding catch_up
    catch_up-whole since gap l serves small distinct new =
        let (m, ends, stores) = handle_all-put l (reverse gap) distinct new in
        (m, ground (arith, collect-whole since 999 gap serves 10 small, ends), stores)
