-- ===== src/Chain/Read/Batches.antt =====
-- packages/chain/src/read.ts: splitting a request into batches and reading them one by one.
use cancel_chain.Common.{
  ℕ, zero, suc, ◌≤◌, ◌<◌, ◌≡◌, refl, sym, ap, ◌∙◌, String, Option, some, List, [], ◌∷◌, ◌++◌, map,
  take, drop, arith, length, ok, with_ok, All,
}
use cancel_chain.Chain.Read.{
  RawProgramAccount, Account, AllowanceReader, Response, chunk_from, chunk, found, read_batches,
  read_accounts, ensure_floor, max_accounts_per_request,
}

abbrev pub concat {ℓ} : {A : Type ℓ} → List (List A) → List A
concat [] = []
concat (xs ∷ xss) = xs ++ concat xss

abbrev pub IsBatch {ℓ} : {A : Type ℓ} → ℕ → List A → Type 0
IsBatch size batch = (0 < length batch) × (length batch ≤ size)

module _ {ℓ} {A : Type ℓ} where
  take-drop : (n : ℕ) (xs : List A) → take n xs ++ drop n xs ≡ xs
  take-drop zero xs = refl
  take-drop (suc n) [] = refl
  take-drop (suc n) (x ∷ xs) = ap (λ r. x ∷ r) (take-drop n xs)

  length-drop-le : (n : ℕ) (xs : List A) → length (drop n xs) ≤ length xs
  length-drop-le zero xs = omega arith
  length-drop-le (suc n) [] = omega arith
  length-drop-le (suc n) (x ∷ xs) = omega (arith, length-drop-le n xs)

  length-take-le : (n : ℕ) (xs : List A) → length (take n xs) ≤ n
  length-take-le zero xs = omega arith
  length-take-le (suc n) [] = omega arith
  length-take-le (suc n) (x ∷ xs) = omega (arith, length-take-le n xs)

  chunk_from-parts :
      (n : ℕ) (items : List A) (size : ℕ)
      → length items ≤ n
      → (concat (chunk_from n items (suc size)) ≡ items)
        × All (IsBatch (suc size)) (chunk_from n items (suc size))
  unfolding chunk_from
  chunk_from-parts zero [] size h = (refl, tt)
  chunk_from-parts zero (x ∷ items) size h = absurd (omega arith)
  chunk_from-parts (suc n) [] size h = (refl, tt)
  chunk_from-parts (suc n) (x ∷ items) size h =
      let (whole, parts) =
        chunk_from-parts n (drop size items) size (omega (arith, length-drop-le size items)) in
      (
        ap (λ r. x ∷ (take size items ++ r)) whole ∙ ap (λ r. x ∷ r) (take-drop size items),
        ((omega arith, omega (arith, length-take-le size items)), parts),
      )

  -- The batches of a request are its items in order, none lost or repeated, and each holds an item
  -- at least and the batch size at most.
  pub chunk-parts :
      (items : List A) (size : ℕ)
      → (concat (chunk items (suc size)) ≡ items)
        × All (IsBatch (suc size)) (chunk items (suc size))
  unfolding chunk
  chunk-parts items size = chunk_from-parts (length items) items size (omega arith)

append_assoc {ℓ} : {A : Type ℓ} (xs ys zs : List A) → (xs ++ ys) ++ zs ≡ xs ++ (ys ++ zs)
append_assoc [] ys zs = refl
append_assoc (x ∷ xs) ys zs = ap (λ r. x ∷ r) (append_assoc xs ys zs)

append_nil {ℓ} : {A : Type ℓ} (xs : List A) → xs ++ [] ≡ xs
append_nil [] = refl
append_nil (x ∷ xs) = ap (λ r. x ∷ r) (append_nil xs)

module _ (view : String → Option Account) where
  -- What a node that shows `view` has of the addresses.
  abbrev pub seen : List String → List RawProgramAccount
  seen keys = found keys (map view keys)

  seen-append : (xs ys : List String) → seen (xs ++ ys) ≡ seen xs ++ seen ys
  unfolding found
  seen-append [] ys = refl
  seen-append (x ∷ xs) ys = grind (arith, seen-append xs ys)

  -- A node that answers each batch that the protocol allows with its accounts as of one slot.
  abbrev pub IsSteady : AllowanceReader → ℕ → ℕ → Type 0
  IsSteady reader step slot =
      (batch : List String)
      → length batch ≤ max_accounts_per_request
      → reader.get_multiple_accounts step batch
        ≡ ok (record { slot = slot; value = map view batch })

  abbrev slot_after : List (List String) → ℕ → ℕ → ℕ
  slot_after [] before slot = before
  slot_after (b ∷ bs) before slot = slot

  slot_after_lem : (bs : List (List String)) {slot : ℕ} → slot_after bs slot slot ≡ slot
  slot_after_lem [] = refl
  slot_after_lem (b ∷ bs) = refl

  module _ (reader : AllowanceReader) (step slot : ℕ) (floor : Option ℕ)
      (fresh : ensure_floor slot floor ≡ ok tt) (steady : IsSteady reader step slot) where
    batches_lem :
        (before : ℕ) (accounts : List RawProgramAccount) (batches : List (List String))
        → All (IsBatch max_accounts_per_request) batches
        → read_batches reader step floor before accounts batches
          ≡ ok (slot_after batches before slot, accounts ++ seen (concat batches))
    unfolding read_batches found
    batches_lem before accounts [] h = ap (λ r. ok (before, r)) (sym (append_nil accounts))
    batches_lem before accounts (b ∷ bs) ((some_item, most), h) =
        rw (steady b most, fresh)
          (batches_lem slot (accounts ++ seen b) bs h
            ∙ ap (λ r. ok (slot_after bs slot slot, r))
                (append_assoc accounts (seen b) (seen (concat bs))
                  ∙ ap (λ r. accounts ++ r) (sym (seen-append b (concat bs))))
            ∙ ap (λ r. ok (r, accounts ++ seen (b ++ concat bs))) (slot_after_lem bs))

    -- From a node that answers every allowed batch as of one slot, which is fresh enough, the read
    -- returns that slot and the accounts that are there, in the order of the addresses: the batches
    -- do not show.
    pub read_accounts-seen :
        (key : String) (addresses : List String)
        → read_accounts reader step floor (key ∷ addresses) ≡ ok (slot, seen (key ∷ addresses))
    unfolding read_accounts chunk chunk_from
    read_accounts-seen key addresses =
        let (whole, parts) = chunk-parts (key ∷ addresses) 99 in
        batches_lem 0 [] (chunk (key ∷ addresses) max_accounts_per_request) parts
        ∙ ap (λ r. ok (slot, seen r)) whole

module _ (reader : AllowanceReader) (step : ℕ) (floor : ℕ) where
  -- The answer to a batch, from a slot no older than the floor.
  abbrev pub IsFreshBatch : List String → Type 0
  IsFreshBatch batch =
      (r : Response (List (Option Account))) × (reader.get_multiple_accounts step batch ≡ ok r)
      × (floor ≤ r.slot)

  fresh_floor : (slot : ℕ) (u : Unit {0}) → ensure_floor slot (some floor) ≡ ok u → floor ≤ slot
  unfolding ensure_floor
  fresh_floor slot u h = ground arith

  batches-fresh :
      (before : ℕ) (accounts : List RawProgramAccount) (batches : List (List String))
      (r : ℕ × List RawProgramAccount)
      → read_batches reader step (some floor) before accounts batches ≡ ok r
      → All IsFreshBatch batches
  unfolding read_batches
  batches-fresh before accounts [] r h = tt
  batches-fresh before accounts (b ∷ bs) r h =
      with_ok (reader.get_multiple_accounts step b) _ h λ response answered h1.
        with_ok (ensure_floor response.slot (some floor)) _ h1 λ u fresh h2. (
          (response, answered, fresh_floor response.slot u fresh),
          batches-fresh response.slot _ bs r h2,
        )

  -- A read that returns has had every batch answered from a slot no older than it asked for: one
  -- stale answer among many fails the whole read.
  pub read_accounts-fresh :
      (addresses : List String) (r : ℕ × List RawProgramAccount)
      → read_accounts reader step (some floor) addresses ≡ ok r
      → All IsFreshBatch (chunk addresses max_accounts_per_request)
  unfolding read_accounts
  read_accounts-fresh addresses r h =
      batches-fresh 0 [] (chunk addresses max_accounts_per_request) r h
