-- ===== src/Chain/Read/Wallet/Complete.antt =====
-- packages/chain/src/read.ts: the list of a wallet's permissions.
use cancel_chain.Common.{
  ℕ, ◌≡◌, inl, inr, refl, ap, ◌∙◌, String, Bool, Option, List, [], ◌∷◌, map, arith, ok, with_ok,
  Bool-cases,
}
use cancel_chain.Chain.Decode.{
  Codecs, DecodedDelegation, fixed, recurring, subscription, unknown, empty, discriminator,
  length_differs, address_of,
}
use cancel_chain.Chain.Decode.Status.{IsRead, decode_delegation-IsRead}
use cancel_chain.Chain.Read.{
  RawProgramAccount, AllowanceReader, Response, ensure_floor, slot_to_number,
}
use cancel_chain.Chain.Read.Plans.{resolve_plan_refs, authority_states}
use cancel_chain.Chain.Read.Cards.{UnreadableAllowance, ReadAllowance, convert}
use cancel_chain.Chain.Read.Cards.Kept.{count, count_shown, convert-count}
use cancel_chain.Chain.Read.Wallet.{
  is_after, insert, sort, AllowanceReadResult, subscription_accounts, decode_raw, cards_of,
  read_allowances,
}

module _ {A : Type 0} (key : A → String) where
  insert-count :
      (x : String) (y : A) (ys : List A)
      → count x (map key (insert key y ys)) ≡ count x (map key (y ∷ ys))
  unfolding insert count
  insert-count x y [] = refl
  insert-count x y (z ∷ zs) = elim (Bool-cases (is_after (key y) (key z))) [
    | inl after ↦ ground (arith, insert-count x y zs)
    | inr before ↦ rw before refl
  ]

  pub sort-count :
      (x : String) (ys : List A) → count x (map key (sort key ys)) ≡ count x (map key ys)
  unfolding sort count
  sort-count x [] = refl
  sort-count x (y ∷ ys) = insert-count x y (sort key ys) ∙ ground (arith, sort-count x ys)

address_of_read :
    (sdk : Codecs) (address : String) (bytes : List ℕ) (d : DecodedDelegation)
    → IsRead sdk address bytes d
    → address_of d ≡ address
address_of_read sdk address bytes (fixed a d) (at, _, _, _) = at
address_of_read sdk address bytes (recurring a d) (at, _, _, _) = at
address_of_read sdk address bytes (subscription a d) (at, _, _, _) = at
address_of_read sdk address bytes (unknown a d empty) (at, _, _) = at
address_of_read sdk address bytes (unknown a d discriminator) (at, _, _) = at
address_of_read sdk address bytes (unknown a d length_differs) (at, _, _) = at

pub decode-address :
    (reader : AllowanceReader) (raw : RawProgramAccount)
    → address_of (decode_raw reader raw) ≡ raw.pubkey
decode-address reader raw =
    address_of_read reader.sdk raw.pubkey raw.account.bytes _
      (decode_delegation-IsRead reader.sdk raw.pubkey raw.account.bytes)

slot_of : (raw slot : ℕ) → slot_to_number raw ≡ ok slot → slot ≡ raw
unfolding slot_to_number
slot_of raw slot h = ground arith

decoded-addresses :
    (reader : AllowanceReader) (raws : List RawProgramAccount)
    → map address_of (map (decode_raw reader) raws) ≡ map (λ r. r.pubkey) raws
decoded-addresses reader [] = refl
decoded-addresses reader (raw ∷ raws) =
    rw (decode-address reader raw, decoded-addresses reader raws)

module _ (reader : AllowanceReader) (floor : Option ℕ) (full : Bool) (synced_at now : ℕ) where
  -- Whatever the plans and the authorities are, the two lists hold the accounts.
  pub cards_of-count :
      (slot : ℕ) (ds : List DecodedDelegation) (p : List ReadAllowance × List UnreadableAllowance)
      → cards_of reader floor full synced_at now slot ds ≡ ok p
      → (x : String) → count_shown x p ≡ count x (map address_of ds)
  unfolding cards_of
  cards_of-count slot ds p h x =
      with_ok (resolve_plan_refs reader floor full (subscription_accounts ds)) _ h λ refs _ h1.
        with_ok (authority_states reader floor ds refs) _ h1 λ authorities _ h2.
          let same : p ≡ convert reader refs authorities slot synced_at now ds =
            ground (arith, h2) in
          ap (count_shown x) same ∙ convert-count reader refs authorities slot synced_at now x ds

  sorted-count :
      (p : List ReadAllowance × List UnreadableAllowance) (x : String)
      → count_shown x (sort (λ c. c.allowance.pda) p.0, sort (λ u. u.address) p.1) ≡ count_shown x p
  unfolding count_shown
  sorted-count (cards, refusals) x =
      rw (sort-count (λ c. c.allowance.pda) x cards, sort-count (λ u. u.address) x refusals)

  -- The answer to a wallet's list has the slot of the accounts' answer, and in its two lists each
  -- address as often as among those accounts: every permission is a card or a named refusal.
  pub read_allowances_complete :
      (owner : String) (r : AllowanceReadResult)
      → read_allowances reader floor full synced_at now owner ≡ ok r
      → (response : Response (List RawProgramAccount)) × (reader.accounts_of_owner owner
          ≡ ok response)
        × (r.slot ≡ response.slot)
        × ((x : String)
            → count_shown x (r.allowances, r.unreadable)
              ≡ count x (map (λ raw. raw.pubkey) response.value))
  unfolding read_allowances
  read_allowances_complete owner r h =
      with_ok (reader.accounts_of_owner owner) _ h λ response answered h1.
        with_ok (ensure_floor response.slot floor) _ h1 λ _ _ h2.
          with_ok (slot_to_number response.slot) _ h2 λ slot in_range h3.
            with_ok
              (cards_of reader floor full synced_at now slot
                (map (decode_raw reader) response.value))
              _ h3
              λ p converted h4.
                let cards : r.allowances ≡ sort (λ c. c.allowance.pda) p.0 = ground (arith, h4) in
                let refusals : r.unreadable ≡ sort (λ u. u.address) p.1 = ground (arith, h4) in
                (
                  response,
                  answered,
                  ground (arith, h4, slot_of response.slot slot in_range),
                  λ x.
                      rw (cards, refusals)
                        (sorted-count p x
                          ∙ cards_of-count slot _ p converted x
                          ∙ ap (count x) (decoded-addresses reader response.value)),
                )
