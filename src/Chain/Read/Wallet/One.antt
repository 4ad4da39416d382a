-- ===== src/Chain/Read/Wallet/One.antt =====
-- packages/chain/src/read.ts: one permission by its address.
use cancel_chain.Common.{
  ℕ, subst, ◌≡◌, ◌≢◌, ◌⊎◌, inl, inr, refl, ◌∙◌, String, Bool, Option, none, some, List, [], ◌∷◌,
  arith, str_eq, eq_iff, get_elem?, ok, with_ok, Bool-cases,
}
use cancel_chain.Chain.Decode.{DecodedDelegation, PlanRef, address_of}
use cancel_chain.Chain.Read.{
  Account, RawProgramAccount, AllowanceReader, ensure_floor, slot_to_number, chunk, chunk_from,
  found, read_batches, read_accounts,
}
use cancel_chain.Chain.Read.Plans.{AuthorityState, resolve_plan_refs, authority_states}
use cancel_chain.Chain.Read.Cards.{
  UnreadableAllowance, ReadAllowance, convert, Entry, shown, refused, put, convert_one,
}
use cancel_chain.Chain.Read.Cards.Kept.{IsEntryOf, convert_one-IsEntryOf}
use cancel_chain.Chain.Read.Wallet.{
  AllowanceReadOne, subscription_accounts, decode_raw, cards_of, read_found, read_owned,
  read_allowance,
}
use cancel_chain.Chain.Read.Wallet.Complete.{decode-address}

-- Neither a card nor a refusal.
abbrev pub IsAbsent : AllowanceReadOne → Type 0
IsAbsent r = (r.allowance ≡ none) × (r.unreadable ≡ none)

-- A card or a refusal, of that address, and not both.
abbrev pub IsOneOf : String → Option ReadAllowance → Option UnreadableAllowance → Type 0
IsOneOf address card refusal =
    ((c : ReadAllowance) × (card ≡ some c) × (refusal ≡ none) × (c.allowance.pda ≡ address))
    ⊎ ((u : UnreadableAllowance) × (card ≡ none) × (refusal ≡ some u) × (u.address ≡ address))

module _ (reader : AllowanceReader) (floor : Option ℕ) (full : Bool) (synced_at now : ℕ) where
  abbrev pub IsAnswer : String → Option RawProgramAccount → AllowanceReadOne → Type 0
  IsAnswer pda none r = IsAbsent r
  IsAnswer pda (some raw) r =
      ((raw.account.account_owner ≢ reader.program_address) × IsAbsent r)
      ⊎ ((raw.account.account_owner ≡ reader.program_address)
          × IsOneOf pda r.allowance r.unreadable)

  put-IsOneOf :
      (address : String) (d : DecodedDelegation) (e : Entry)
      (p : List ReadAllowance × List UnreadableAllowance) (refs : List (String × PlanRef))
      (authorities : List (String × AuthorityState)) (slot : ℕ)
      → address_of d ≡ address
      → IsEntryOf reader refs authorities slot synced_at now d e
      → p ≡ put e ([], [])
      → IsOneOf address (get_elem? p.0 0) (get_elem? p.1 0)
  put-IsOneOf address d (shown c) p refs authorities slot at h same =
      rw same (inl (c, refl, refl, h.at ∙ at))
  put-IsOneOf address d (refused u) p refs authorities slot at (here, _, _) same =
      rw same (inr (u, refl, refl, here ∙ at))

  cards_of-IsOneOf :
      (slot : ℕ) (raw : RawProgramAccount) (p : List ReadAllowance × List UnreadableAllowance)
      → cards_of reader floor full synced_at now slot (decode_raw reader raw ∷ []) ≡ ok p
      → IsOneOf raw.pubkey (get_elem? p.0 0) (get_elem? p.1 0)
  unfolding cards_of convert
  cards_of-IsOneOf slot raw p h =
      let d = decode_raw reader raw in
      with_ok (resolve_plan_refs reader floor full (subscription_accounts (d ∷ []))) _ h
        λ refs _ h1. with_ok (authority_states reader floor (d ∷ []) refs) _ h1 λ authorities _ h2.
          put-IsOneOf raw.pubkey d (convert_one reader refs authorities slot synced_at now d) p refs
            authorities slot (decode-address reader raw)
            (convert_one-IsEntryOf reader refs authorities slot synced_at now d)
            (ground (arith, h2))

  owned-IsOneOf :
      (slot : ℕ) (raw : RawProgramAccount) (r : AllowanceReadOne)
      → read_owned reader floor full synced_at now slot raw ≡ ok r
      → IsOneOf raw.pubkey r.allowance r.unreadable
  unfolding read_owned
  owned-IsOneOf slot raw r h =
      with_ok (cards_of reader floor full synced_at now slot (decode_raw reader raw ∷ [])) _ h
        λ p converted h1.
          let card : r.allowance ≡ get_elem? p.0 0 = ground (arith, h1) in
          let refusal : r.unreadable ≡ get_elem? p.1 0 = ground (arith, h1) in
          rw (card, refusal) (cards_of-IsOneOf slot raw p converted)

  found-IsAnswer :
      (pda : String) (slot : ℕ) (o : Option RawProgramAccount) (r : AllowanceReadOne)
      → ((raw : RawProgramAccount) → o ≡ some raw → raw.pubkey ≡ pda)
      → read_found reader floor full synced_at now slot o ≡ ok r
      → IsAnswer pda o r
  unfolding read_found
  found-IsAnswer pda slot none r at h = ground (arith, h)
  found-IsAnswer pda slot (some raw) r at h =
      elim (Bool-cases (str_eq raw.account.account_owner reader.program_address)) [
        | inl ours ↦ inr (
          ground (arith, ours, eq_iff raw.account.account_owner reader.program_address),
          subst (λ a. IsOneOf a r.allowance r.unreadable) (at raw refl)
              (owned-IsOneOf slot raw r (ground (arith, ours, h))),
        )
        | inr foreign ↦ inl (
          ground (arith, eq_iff raw.account.account_owner reader.program_address),
          ground (arith, h),
        )
      ]

  -- The account that a read of one address gives bears that address.
  found-pubkey :
      (pda : String) (answers : List (Option Account)) (raw : RawProgramAccount)
      → get_elem? (found (pda ∷ []) answers) 0 ≡ some raw
      → raw.pubkey ≡ pda
  unfolding found
  found-pubkey pda [] raw h = absurd (ground (arith, h))
  found-pubkey pda (none ∷ []) raw h = absurd (ground (arith, h))
  found-pubkey pda (none ∷ a ∷ answers) raw h = absurd (ground (arith, h))
  found-pubkey pda (some a ∷ answers) raw h = ground (arith, h)

  read-pubkey :
      (pda : String) (slot : ℕ) (accounts : List RawProgramAccount) (raw : RawProgramAccount)
      → read_accounts reader 0 floor (pda ∷ []) ≡ ok (slot, accounts)
      → get_elem? accounts 0 ≡ some raw
      → raw.pubkey ≡ pda
  unfolding read_accounts read_batches chunk chunk_from
  read-pubkey pda slot accounts raw h first =
      with_ok (reader.get_multiple_accounts 0 (pda ∷ [])) _ h λ response _ h1.
        with_ok (ensure_floor response.slot floor) _ h1 λ _ _ h2.
          let same : accounts ≡ found (pda ∷ []) response.value = ground (arith, h2) in
          found-pubkey pda response.value raw (ground (arith, first, same))

  -- The answer about one address is a card or a named refusal of that address where the account is
  -- there and is the program's, never both, and neither where it is absent or another program's.
  pub read_allowance-IsAnswer :
      (pda : String) (r : AllowanceReadOne)
      → read_allowance reader floor full synced_at now pda ≡ ok r
      → (raw_slot : ℕ) × (accounts : List RawProgramAccount) × (read_accounts reader 0 floor
            (pda ∷ [])
          ≡ ok (raw_slot, accounts))
        × IsAnswer pda (get_elem? accounts 0) r
  unfolding read_allowance
  read_allowance-IsAnswer pda r h =
      with_ok (read_accounts reader 0 floor (pda ∷ [])) _ h λ answer read h1.
        with_ok (slot_to_number answer.0) _ h1 λ slot _ h2. (
          answer.0,
          answer.1,
          read,
          found-IsAnswer pda slot (get_elem? answer.1 0) r
              (λ raw first. read-pubkey pda answer.0 answer.1 raw read first) h2,
        )
