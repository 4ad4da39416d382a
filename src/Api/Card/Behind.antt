-- ===== src/Api/Card/Behind.antt =====
-- apps/api/src/routes/allowances.ts: reading until the node has reached a slot.
use cancel_chain.Common.{
  ℕ, zero, suc, ◌+◌, ◌-◌, ◌==◌, Bool-cases, ◌≤◌, ◌<◌, ◌≡◌, ◌≢◌, ◌⊎◌, inl, inr, refl, arith, ◌∙◌, ap,
}
use cancel_chain.Api.Card.{Attempt, done, behind, failed, settle, read_from, read_at_least}

module _ {E A : Type 0} (read : ℕ → Attempt E A) where
  -- What ends the attempts: the first that is not behind, or the last of them all.
  pub record Ends (first last : ℕ) (r : Attempt E A) : Type 0 where
    pub at : ℕ
    pub from : first ≤ at
    pub within : at ≤ last
    pub answer : read at ≡ r
    pub before : (i : ℕ) → first ≤ i → i < at → read i ≡ behind
    pub tried : (r ≢ behind) ⊎ (at ≡ last)

  one-Ends : (n last : ℕ) (r : Attempt E A) → n ≤ last → read n ≡ r → r ≢ behind → Ends n last r
  one-Ends n last r below is answered = record {
    at = n;
    from = omega arith;
    within = below;
    answer = is;
    before = λ i low high. absurd (omega arith);
    tried = inl answered;
  }

  later-Ends :
      (n last : ℕ) (r : Attempt E A) → read n ≡ behind → Ends (suc n) last r → Ends n last r
  later-Ends n last r waits e = record {
    at = e.at;
    from = omega (arith, e.from);
    within = e.within;
    answer = e.answer;
    before = λ i low high. earlier i low high;
    tried = e.tried;
  }
    where
      earlier : (i : ℕ) → n ≤ i → i < e.at → read i ≡ behind
      earlier i low high = elim (Bool-cases (i == n)) [
        | inl here ↦ let same : i ≡ n = ground arith in ap read same ∙ waits
        | inr after ↦ e.before i (ground arith) high
      ]

  settle-Ends :
      (n last : ℕ) (r next : Attempt E A)
      → n ≤ last
      → read n ≡ r
      → Ends (suc n) last next
      → Ends n last (settle read r next)
  settle-Ends n last (done a) next below is e =
      one-Ends n last (done a) below is (λ h. ground arith)
  settle-Ends n last (failed x) next below is e =
      one-Ends n last (failed x) below is (λ h. ground arith)
  settle-Ends n last behind next below is e = later-Ends n last next is e

  read_from-Ends : (left n last : ℕ) → last ≡ n + left → Ends n last (read_from read left n)
  unfolding read_from
  read_from-Ends zero n last is = record {
    at = n;
    from = omega arith;
    within = omega arith;
    answer = refl;
    before = λ i low high. absurd (omega arith);
    tried = inr (omega arith);
  }
  read_from-Ends (suc left) n last is =
      settle-Ends n last (read n) (read_from read left (suc n)) (omega arith) refl
        (read_from-Ends left (suc n) last (omega arith))

  -- The read ends within its attempts: with the first answer that is not "behind", or, when all of
  -- them are, with the last.
  pub read_at_least-Ends :
      (attempts : ℕ) → Ends 1 (suc attempts) (read_at_least read (suc attempts))
  unfolding read_at_least
  read_at_least-Ends attempts =
      let left : suc attempts - 1 ≡ attempts = omega arith in
      rw left (read_from-Ends attempts 1 (suc attempts) (omega arith))
