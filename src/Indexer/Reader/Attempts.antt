-- ===== src/Indexer/Reader/Attempts.antt =====
-- apps/indexer/src/subscribe.ts: how often a transaction is tried, and how long between attempts.
use native.Mathlib.Numerals.{unary_clauses}
use cancel_chain.Common.{
  ℕ, zero, suc, ◌-◌, ◌*◌, ◌^◌, ◌≡◌, ◌≢◌, ◌≤◌, ◌<◌, ◌⊎◌, refl, String, Bool, true, false, Option,
  List, arith, ltb, inl, inr, eq_iff, or_else, Result, ok, throw,
}
use cancel_chain.Common.Dict.{get, get-set, get-delete}
use cancel_chain.Indexer.Reader.{
  reconnect_delay_ms, min, SignatureInfo, Fault, transport, other, ReadResult, settle_read,
  failed_read, read, read_attempts,
}

two_pow_suc : (n : ℕ) → 2 ^ suc n ≡ 2 * 2 ^ n
two_pow_suc n = simp unary_clauses (omega arith)

two_pow_positive : (n : ℕ) → 1 ≤ 2 ^ n
two_pow_positive zero = omega arith
two_pow_positive (suc n) = omega (arith, two_pow_suc n, two_pow_positive n)

-- The first waits a second; each later one twice the one before, until half a minute.
pub reconnect_delay_lem :
    (attempt : ℕ)
    → (1_000 ≤ reconnect_delay_ms attempt)
      × (reconnect_delay_ms attempt ≤ 30_000)
      × (reconnect_delay_ms (suc (suc attempt)) ≡ min 30_000 (2 * reconnect_delay_ms (suc attempt)))
unfolding reconnect_delay_ms
reconnect_delay_lem attempt =
    let two : suc (suc attempt) - 1 ≡ suc attempt = omega arith in
    let one : suc attempt - 1 ≡ attempt = omega arith in
    ground (arith, two_pow_suc attempt, two_pow_positive (attempt - 1), two, one)

module _ {T D : Type 0} (decode : T → Result Fault D) (item : SignatureInfo) where
  abbrev Answers : Type 0
  Answers = ℕ → Result Fault (Option T)

  -- How many readings of the signature failed in a row.
  abbrev pub count : List (String × ℕ) → ℕ
  count failures = or_else (get item.signature failures) 0

  -- What a reading comes to: the node refused it and nothing is counted, it failed and is counted,
  -- or it is over and the count starts again.
  abbrev pub Comes : List (String × ℕ) → List (String × ℕ) → Result Fault (ReadResult D) → Type 0
  Comes before after (throw transport) = after ≡ before
  Comes before after (throw other) =
      (count after ≡ suc (count before)) × (suc (count before) < read_attempts)
  Comes before after (ok result) = count after ≡ 0

  failed_read-Comes :
      (failures : List (String × ℕ)) (early : Bool)
      → ltb (suc (count failures)) read_attempts ≡ early
      → let (after, result) =
          failed_read decode failures item.signature (suc (count failures)) early in
        Comes failures after result
  failed_read-Comes failures true h = (
    ground (
      arith,
      get-set item.signature item.signature (suc (count failures)) failures,
      eq_iff item.signature item.signature,
    ),
    ground arith,
  )
  failed_read-Comes failures false h = ground (
    arith,
    get-delete item.signature item.signature failures,
    eq_iff item.signature item.signature,
  )

  settle_read-Comes :
      (failures : List (String × ℕ)) (r : Result Fault (ReadResult D))
      → let (after, result) = settle_read decode failures item.signature r in
        Comes failures after result
  unfolding settle_read
  settle_read-Comes failures (ok result) = ground (
    arith,
    get-delete item.signature item.signature failures,
    eq_iff item.signature item.signature,
  )
  settle_read-Comes failures (throw transport) = refl
  settle_read-Comes failures (throw other) =
      failed_read-Comes failures (ltb (suc (count failures)) read_attempts) refl

  abbrev pub IsOver : Result Fault (ReadResult D) → Type 0
  IsOver (ok result) = Unit
  IsOver (throw e) = ⊥

  abbrev Counts : List (String × ℕ) → List (String × ℕ) → Type 0
  Counts before after = (count after ≡ suc (count before)) × (suc (count before) < read_attempts)

  attempt_settled :
      (before after : List (String × ℕ)) (r : Result Fault (ReadResult D))
      → Comes before after r
      → r ≢ throw transport
      → IsOver r ⊎ Counts before after
  attempt_settled before after (ok result) h served = inl tt
  attempt_settled before after (throw other) h served = inr h
  attempt_settled before after (throw transport) h served = absurd (served refl)

  -- Where no reading is refused by the node, a signature holds the indexer up three times at most:
  -- of three readings in a row one is over, decoded or given up, whatever the others were.
  pub read_ends :
      (failures : List (String × ℕ)) (a b c : Answers)
      → let (f1, r1) = read decode failures item a in
        let (f2, r2) = read decode f1 item b in
        let (f3, r3) = read decode f2 item c in
        (r1 ≢ throw transport)
        → (r2 ≢ throw transport)
        → (r3 ≢ throw transport)
        → IsOver r1 ⊎ (IsOver r2 ⊎ IsOver r3)
  unfolding read
  read_ends failures a b c served1 served2 served3 =
      let first = attempt_settled failures _ _ (settle_read-Comes failures _) served1 in
      let second = attempt_settled _ _ _ (settle_read-Comes _ _) served2 in
      let third = attempt_settled _ _ _ (settle_read-Comes _ _) served3 in
      ground (arith, first, second, third)
