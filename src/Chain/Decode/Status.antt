-- ===== src/Chain/Decode/Status.antt =====
-- packages/chain/src/decode.ts: the first byte of an account, and its moments.
use cancel_chain.Common.{
  ℕ, ◌*◌, ◌≤◌, ◌<◌, ◌≡◌, ◌≢◌, ◌↔◌, inl, inr, refl, String, true, Option, none, some, Bool-cases,
  List, [], ◌∷◌, arith, ◌==◌, length, ok,
}
use cancel_chain.Common.Int.{ℤ, pos, negsuc}
use cancel_chain.Chain.Decode.{
  DecodedDelegation, fixed, recurring, subscription, unknown, empty, discriminator, length_differs,
  Codecs, expected_size_for, decode_sized, decode_delegation, max_date, timestamp_from_chain,
}

abbrev pub first_byte : List ℕ → Option ℕ
first_byte [] = none
first_byte (b ∷ bytes) = some b

-- What a decoded account says about the bytes it was read from.
abbrev pub IsRead : Codecs → String → List ℕ → DecodedDelegation → Type 0
IsRead sdk address bytes (fixed a d) =
    (a ≡ address)
    × (first_byte bytes ≡ some sdk.fixed_discriminator)
    × (length bytes ≡ sdk.fixed_size)
    × (d ≡ sdk.decode_fixed bytes)
IsRead sdk address bytes (recurring a d) =
    (a ≡ address)
    × (first_byte bytes ≡ some sdk.recurring_discriminator)
    × (length bytes ≡ sdk.recurring_size)
    × (d ≡ sdk.decode_recurring bytes)
IsRead sdk address bytes (subscription a d) =
    (a ≡ address)
    × (first_byte bytes ≡ some sdk.subscription_discriminator)
    × (length bytes ≡ sdk.subscription_size)
    × (d ≡ sdk.decode_subscription bytes)
IsRead sdk address bytes (unknown a d empty) = (a ≡ address) × (d ≡ none) × (bytes ≡ [])
IsRead sdk address bytes (unknown a d discriminator) =
    (a ≡ address)
    × (d ≡ first_byte bytes)
    × ((d ≢ some sdk.fixed_discriminator)
        × (d ≢ some sdk.recurring_discriminator)
        × (d ≢ some sdk.subscription_discriminator))
IsRead sdk address bytes (unknown a d length_differs) =
    (a ≡ address)
    × (d ≡ first_byte bytes)
    × ((b : ℕ) × (d ≡ some b) × (expected_size_for sdk b ≢ some (length bytes)))

module _ (sdk : Codecs) (address : String) (b : ℕ) (bytes : List ℕ) where
  sized-IsRead :
      (n : ℕ)
      → expected_size_for sdk b ≡ some n
      → length (b ∷ bytes) ≡ n
      → IsRead sdk address (b ∷ bytes) (decode_sized sdk address (b ∷ bytes) b (some n))
  unfolding expected_size_for decode_sized
  sized-IsRead n e full =
      let fits : (length (b ∷ bytes) == n) ≡ true = ground arith in
      elim (Bool-cases (b == sdk.fixed_discriminator)) [
        | inl f ↦ rw (fits, f) (refl, ground arith, ground arith, refl)
        | inr not_f ↦ elim (Bool-cases (b == sdk.recurring_discriminator)) [
          | inl r ↦ rw (fits, not_f, r) (refl, ground arith, ground arith, refl)
          | inr not_r ↦ rw (fits, not_f, not_r) (refl, ground arith, ground arith, refl)
        ]
      ]

  foreign :
      expected_size_for sdk b ≡ none
      → (some b ≢ some sdk.fixed_discriminator)
        × (some b ≢ some sdk.recurring_discriminator)
        × (some b ≢ some sdk.subscription_discriminator)
  unfolding expected_size_for
  foreign e = ground arith

  expected-IsRead :
      (o : Option ℕ)
      → expected_size_for sdk b ≡ o
      → IsRead sdk address (b ∷ bytes) (decode_sized sdk address (b ∷ bytes) b o)
  unfolding decode_sized
  expected-IsRead none e = (refl, refl, foreign e)
  expected-IsRead (some n) e = elim (Bool-cases (length (b ∷ bytes) == n)) [
    | inl full ↦ sized-IsRead n e (ground arith)
    | inr short ↦ rw short (refl, refl, (b, refl, λ wrong. ground arith))
  ]

-- Every account is read as the kind that its first byte names, and only at that kind's full size;
-- whatever is not read says which of the two did not fit.
pub decode_delegation-IsRead :
    (sdk : Codecs) (address : String) (bytes : List ℕ)
    → IsRead sdk address bytes (decode_delegation sdk address bytes)
unfolding decode_delegation
decode_delegation-IsRead sdk address [] = (refl, refl, refl)
decode_delegation-IsRead sdk address (b ∷ bytes) = expected-IsRead sdk address b bytes _ refl

-- A moment of the chain is nothing at zero, its milliseconds as long as a date can hold them, and
-- refused otherwise; it is never cut down.
pub timestamp_from_chain_iff :
    (ts : ℤ) (ms : ℕ)
    → (timestamp_from_chain ts ≡ ok (some ms))
      ↔ ((s : ℕ) × (ts ≡ pos s) × (0 < s) × (ms ≡ s * 1000) × (ms ≤ max_date))
unfolding timestamp_from_chain
timestamp_from_chain_iff (pos s) ms =
    ((λ h. (s, refl, ground arith, ground arith, ground arith)), λ (s', e, p, q, r). ground arith)
timestamp_from_chain_iff (negsuc n) ms =
    ((λ h. absurd (ground arith)), λ (s', e, p, q, r). absurd (ground arith))
