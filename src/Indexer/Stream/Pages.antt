-- ===== src/Indexer/Stream/Pages.antt =====
-- apps/indexer/src/subscribe.ts: gathering the pages of what was missed.
use mathlib.Core.List.{append_assoc}
use cancel_chain.Common.{
  ℕ, zero, suc, ◌+◌, ◌*◌, ◌≡◌, ◌≤◌, ◌<◌, refl, ap, sym, ◌∙◌, inl, inr, String, false, Option, none,
  List, [], ◌∷◌, ◌++◌, arith, ltb, Bool-cases, length, take, drop, Result, ok,
}
use cancel_chain.Indexer.Reader.{SignatureInfo, Fault}
use cancel_chain.Indexer.Reader.Paging.{
  before, last_key, last-before, take-all, take-drop, drop-drop, length-drop, length-take-short,
  length-take-full,
}
use cancel_chain.Indexer.Stream.{collect, last_signature}

-- What stands before the n-th item of a list: nothing before the first.
abbrev pub before_at : List SignatureInfo → ℕ → Option String
before_at = before (λ x. x.signature)

-- A node that serves the gap page by page, whichever of its items it is asked to go on from.
abbrev pub Serves :
    (Option String → Result Fault (List SignatureInfo)) → ℕ → List SignatureInfo → Type 0
Serves since page gap =
    (n : ℕ) → n ≤ length gap → since (before_at gap n) ≡ ok (take page (drop n gap))

last_signature_lem : (xs : List SignatureInfo) → last_signature xs ≡ last_key (λ x. x.signature) xs
last_signature_lem [] = refl
last_signature_lem (x ∷ []) = refl
last_signature_lem (x ∷ y ∷ xs) = last_signature_lem (y ∷ xs)

module _ (since : Option String → Result Fault (List SignatureInfo)) (page : ℕ)
    (gap : List SignatureInfo) (serves : Serves since (suc page) gap) where
  collect_from :
      (pages n : ℕ) (missed : List SignatureInfo)
      → missed ++ drop n gap ≡ gap
      → n ≤ length gap
      → length gap < n + pages * suc page
      → collect since (suc page) pages (before_at gap n) missed ≡ ok (gap, false)
  unfolding collect
  collect_from zero n missed m h k = absurd (omega (arith, h, k))
  collect_from (suc pages) n missed m h k =
      let batch = take (suc page) (drop n gap) in
      let rest = length-drop n gap in
      elim (Bool-cases (ltb (length batch) (suc page))) [
        | inl short ↦
            let few = length-take-short (suc page) (drop n gap) (ground (arith, short)) in
            let whole : batch ≡ drop n gap =
              take-all (suc page) (drop n gap) (omega (arith, few)) in
            let all : missed ++ batch ≡ gap = ap (λ t. missed ++ t) whole ∙ m in
            ground (arith, serves n h, short, all)
        | inr full ↦
            let many = length-take-full (suc page) (drop n gap) (ground (arith, full)) in
            let next : last_signature batch ≡ before_at gap (suc (n + page)) =
              last_signature_lem batch
              ∙ last-before (λ x. x.signature) n page (n + page) gap refl
                  (omega (arith, many, rest)) in
            let on =
              collect_from pages (suc (n + page)) (missed ++ batch)
                (append_assoc missed batch (drop (suc (n + page)) gap)
                  ∙ ap (λ t. missed ++ (batch ++ t))
                      (sym (drop-drop n (suc page) (suc (n + page)) gap (omega arith)))
                  ∙ ap (λ t. missed ++ t) (take-drop (suc page) (drop n gap))
                  ∙ m)
                (omega (arith, many, rest)) (omega (arith, k)) in
            ground (arith, serves n h, full, next, on)
      ]

  -- Where the node serves the gap in pages, newest first, and the gap is smaller than the pages that
  -- are read, it is gathered whole, in the node's order, and nobody says that it was too large.
  pub collect-whole :
      (pages : ℕ)
      → length gap < pages * suc page
      → collect since (suc page) pages none [] ≡ ok (gap, false)
  collect-whole pages fits = collect_from pages 0 [] refl (omega arith) (omega (arith, fits))
