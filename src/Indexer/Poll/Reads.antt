-- ===== src/Indexer/Poll/Reads.antt =====
-- apps/indexer/src/poll.ts: what the readings of one poll leave.
use cancel_chain.Common.{
  ℕ, suc, ◌≡◌, refl, ap, sym, ◌∙◌, inl, inr, String, Bool, Option, none, some, List, [], ◌∷◌, ◌++◌,
  Bool-cases, length, Result, ok, throw,
}
use cancel_chain.Indexer.Reader.{Fault, ReadResult, decoded, skipped, read}
use cancel_chain.Indexer.Poll.{
  PolledSignature, PollerOptions, Poller, Ended, finished, aborted, failed, and_then, sunk,
  read_end, read_one, read_all,
}
use cancel_chain.Indexer.Poll.Kept.{signatures}
use mathlib.Core.List.{append_assoc, append-nil}

module _ {T D S : Type 0} (o : PollerOptions T D S) where
  abbrev read_one_at : Poller S → PolledSignature → Poller S × Option Fault
  read_one_at = read_one o

  abbrev pub read_all_at : (ℕ → Bool) → Poller S → List PolledSignature → Poller S × Ended
  read_all_at = read_all o

  abbrev pub Same : Poller S → Poller S → Type 0
  Same p q = (q.cursors ≡ p.cursors) × (q.synced_at ≡ p.synced_at)

  abbrev ReadsOne : Poller S → String → Poller S × Option Fault → Type 0
  ReadsOne p signature (q, none) = Same p q × (q.log ≡ p.log ++ (signature ∷ []))
  ReadsOne p signature (q, some e) = Same p q

  abbrev pub Reads : Poller S → List String → Poller S × Ended → Type 0
  Reads p sigs (q, finished) = Same p q × (q.log ≡ p.log ++ sigs)
  Reads p sigs (q, aborted) = Same p q
  Reads p sigs (q, failed e) = Same p q

  sunk-reads :
      (p : Poller S) (signature : String) (r : Result Fault S)
      → ReadsOne p signature (sunk o p signature r)
  sunk-reads p signature (ok s) = ((refl, refl), refl)
  sunk-reads p signature (throw e) = (refl, refl)

  read_end-reads :
      (p : Poller S) (signature : String) (r : Result Fault (ReadResult D))
      → ReadsOne p signature (read_end o p signature r)
  read_end-reads p signature (ok (decoded d)) = sunk-reads p signature (o.sink p.store d)
  read_end-reads p signature (ok skipped) = ((refl, refl), refl)
  read_end-reads p signature (throw e) = (refl, refl)

  read_one-reads :
      (p : Poller S) (x : PolledSignature) → ReadsOne p x.info.signature (read_one_at p x)
  unfolding read_one
  read_one-reads p x =
      let (failures, result) =
        read o.decode p.read_failures x.info (o.transaction p.turn x.info.signature) in
      read_end-reads (record p { read_failures = failures; turn = suc p.turn }) x.info.signature
        result

  Same-trans : (p q r : Poller S) → Same p q → Same q r → Same p r
  Same-trans p q r (c, s) (d, t) = (d ∙ c, t ∙ s)

  then-Reads :
      (p : Poller S) (x : String) (xs : List String) (step : Poller S × Option Fault)
      (k : Poller S → Poller S × Ended)
      → ReadsOne p x step
      → ((q : Poller S) → Reads q xs (k q))
      → Reads p (x ∷ xs) (and_then step k)
  then-Reads p x xs (q, some e) k h j = h
  then-Reads p x xs (q, none) k (same, log) j = go (k q) (j q)
    where
      go : (end : Poller S × Ended) → Reads q xs end → Reads p (x ∷ xs) end
      go (r, finished) (s, l) =
          (Same-trans p q r same s, l ∙ ap (λ t. t ++ xs) log ∙ append_assoc p.log (x ∷ []) xs)
      go (r, aborted) s = Same-trans p q r same s
      go (r, failed e) s = Same-trans p q r same s

  pub read_all-Reads :
      (stop : ℕ → Bool) (p : Poller S) (xs : List PolledSignature)
      → Reads p (signatures xs) (read_all_at stop p xs)
  unfolding read_all
  read_all-Reads stop p [] = ((refl, refl), sym (append-nil p.log))
  read_all-Reads stop p (x ∷ xs) = elim (Bool-cases (stop (length xs))) [
    | inl halt ↦ rw halt (refl, refl)
    | inr on ↦ rw on (
        then-Reads p x.info.signature (signatures xs) (read_one_at p x) (λ q. read_all_at stop q xs)
          (read_one-reads p x) (λ q. read_all-Reads stop q xs))
  ]
