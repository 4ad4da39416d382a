-- ===== src/Chain/History.antt =====
-- packages/chain/src/history.ts: the transactions of an address, newest first as the node answers.
use cancel_chain.Common.{
  ℕ, suc, ◌+◌, ◌*◌, ◌<◌, ◌≡◌, ◌↔◌, map, zero, refl, ap, sym, ◌∙◌, String, Bool, true, Option, none,
  some, List, [], ◌∷◌, arith, ltb, if◌then◌else◌, length, take, succeeds, Result, ok, throw,
  throw_if, ◌>>=◌, ◌>>◌,
}
use cancel_chain.Common.Int.{ℤ, pos, negsuc}
use cancel_chain.Shared.Primitives.{max_safe_integer}
use cancel_chain.Chain.Decode.{max_date}

-- `err` is whether the transaction has an error; times are seconds as the node gives them.
pub record RawAddressSignature : Type 0 where
  pub signature : String
  pub slot : ℕ
  pub block_time : Option ℤ
  pub err : Bool

pub record AddressTransaction : Type 0 where
  pub signature : String
  pub slot : ℕ
  pub block_time : Option ℤ
  pub failed : Bool

pub record AddressHistory : Type 0 where
  pub items : List AddressTransaction
  pub synced_at : ℕ
  pub more : Bool

pub data HistoryError : Type 0 where
  bad_limit rpc_failed slot_out_of_range time_out_of_range : HistoryError

unfoldable pub slot_to_number : ℕ → Result HistoryError ℕ
slot_to_number slot = if ltb max_safe_integer slot then throw slot_out_of_range else ok slot

-- The moment in milliseconds; `toISOString` throws outside of a `Date`'s range.
unfoldable pub block_time_to_iso : Option ℤ → Result HistoryError (Option ℤ)
block_time_to_iso none = ok none
block_time_to_iso (some (pos s)) =
    if ltb max_date (s * 1000) then throw time_out_of_range else ok (some (pos (s * 1000)))
block_time_to_iso (some (negsuc n)) =
    if ltb max_date (suc n * 1000)
    then throw time_out_of_range
    else ok (some (negsuc (n * 1000 + 999)))

unfoldable pub to_transaction : RawAddressSignature → Result HistoryError AddressTransaction
to_transaction entry = do
  slot ← slot_to_number entry.slot
  time ← block_time_to_iso entry.block_time
  ok (record { signature = entry.signature; slot = slot; block_time = time; failed = entry.err })

unfoldable pub to_transactions :
    List RawAddressSignature → Result HistoryError (List AddressTransaction)
to_transactions [] = ok []
to_transactions (entry ∷ entries) = do
  item ← to_transaction entry
  items ← to_transactions entries
  ok (item ∷ items)

-- `getSignaturesForAddress` with its limit.
module _ (get_signatures : ℕ → Result HistoryError (List RawAddressSignature)) where
  unfoldable pub read_address_history : ℕ → ℕ → Result HistoryError AddressHistory
  read_address_history limit now = do
    throw_if (ltb limit 1) bad_limit
    raw ← get_signatures (suc limit)
    items ← to_transactions (take limit raw)
    ok (record { items = items; synced_at = now; more = ltb limit (length raw) })

abbrev pub told : AddressTransaction → String × ℕ × Bool
told t = (t.signature, t.slot, t.failed)

abbrev pub answered : RawAddressSignature → String × ℕ × Bool
answered r = (r.signature, r.slot, r.err)

to_transaction-told :
    (r : RawAddressSignature) (t : AddressTransaction)
    → to_transaction r ≡ ok t
    → told t ≡ answered r
unfolding to_transaction slot_to_number
to_transaction-told r t h =
    let (time, at) = succeeds (block_time_to_iso r.block_time) (λ e fails. ground arith) in
    ground (arith, at)

to_transactions-told :
    (raws : List RawAddressSignature) (items : List AddressTransaction)
    → to_transactions raws ≡ ok items
    → map told items ≡ map answered raws
unfolding to_transactions
to_transactions-told [] items h = ground arith
to_transactions-told (r ∷ raws) items h =
    let (t, one) = succeeds (to_transaction r) (λ e fails. ground arith) in
    let (ts, more) = succeeds (to_transactions raws) (λ e fails. ground (arith, one)) in
    let all : t ∷ ts ≡ items = ground (arith, one, more) in
    ground (arith, sym all, to_transaction-told r t one, to_transactions-told raws ts more)

module _ {A : Type 0} where
  take-take : (n : ℕ) (xs : List A) → take n (take (suc n) xs) ≡ take n xs
  take-take zero xs = refl
  take-take (suc n) [] = refl
  take-take (suc n) (x ∷ xs) = ap (λ t. x ∷ t) (take-take n xs)

  length-take_iff : (n : ℕ) (xs : List A) → ltb n (length (take (suc n) xs)) ≡ ltb n (length xs)
  length-take_iff zero [] = refl
  length-take_iff zero (x ∷ xs) = ground arith
  length-take_iff (suc n) [] = ground arith
  length-take_iff (suc n) (x ∷ xs) = ground (arith, length-take_iff n xs)

-- From a node that answers the newest of an address's transactions, as many as it is asked for,
-- the page holds the newest up to the limit in the node's order, with the node's word on which
-- failed, and it says that there are more exactly where there are.
pub read_history_head :
    (all : List RawAddressSignature)
    (get_signatures : ℕ → Result HistoryError (List RawAddressSignature)) (limit now : ℕ)
    (h : AddressHistory)
    → ((n : ℕ) → get_signatures n ≡ ok (take n all))
    → read_address_history get_signatures limit now ≡ ok h
    → (map told h.items ≡ map answered (take limit all)) × ((h.more ≡ true) ↔ (limit < length all))
unfolding read_address_history
read_history_head all get_signatures limit now h newest read =
    let (items, made) =
      succeeds (to_transactions (take limit (take (suc limit) all)))
        (λ e fails. ground (arith, newest (suc limit))) in
    let same : record {
      items = items;
      synced_at = now;
      more = ltb limit (length (take (suc limit) all));
    }
        ≡ h =
      ground (arith, newest (suc limit), made) in
    (
      sym (ap (λ x. map told x.items) same)
          ∙ to_transactions-told (take limit (take (suc limit) all)) items made
          ∙ ap (map answered) (take-take limit all),
      ground (arith, sym (ap (λ x. x.more) same), length-take_iff limit all),
    )
