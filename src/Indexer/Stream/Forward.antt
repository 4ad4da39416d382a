-- ===== src/Indexer/Stream/Forward.antt =====
-- apps/indexer/src/subscribe.ts: what one transaction, and a catching up, does to the loop.
use mathlib.Core.List.{reverse}
use cancel_chain.Common.{
  ℕ, suc, ◌≡◌, ◌≤◌, refl, inl, inr, String, Bool, Option, none, some, List, [], ◌∷◌, arith, leb,
  Bool-cases, length, Result, ok, throw,
}
use cancel_chain.Indexer.Reader.{SignatureInfo, has, Fault, ReadResult, decoded, skipped, read}
use cancel_chain.Indexer.Stream.{
  Loop, newer, stored, handle_read, handle, and_then, handle_all, handle_missed, catch_up,
}

-- The newest transaction that was handled does not go back in its slot.
abbrev pub IsAhead : Option SignatureInfo → Option SignatureInfo → Type 0
IsAhead none b = Unit
IsAhead (some a) none = ⊥
IsAhead (some a) (some b) = a.slot ≤ b.slot

pub IsAhead-refl : (a : Option SignatureInfo) → IsAhead a a
IsAhead-refl none = tt
IsAhead-refl (some a) = omega arith

pub IsAhead-trans : (a b c : Option SignatureInfo) → IsAhead a b → IsAhead b c → IsAhead a c
IsAhead-trans none b c h k = tt
IsAhead-trans (some a) none c h k = absurd h
IsAhead-trans (some a) (some b) none h k = absurd k
IsAhead-trans (some a) (some b) (some c) h k = omega (arith, h, k)

newer-IsAhead : (a : Option SignatureInfo) (x : SignatureInfo) → IsAhead a (newer a x)
unfolding newer
newer-IsAhead none x = tt
newer-IsAhead (some a) x = elim (Bool-cases (leb a.slot x.slot)) [
  | inl later ↦ rw later (ground (arith, later))
  | inr before ↦ rw before (omega arith)
]

module _ {S : Type 0} where
  -- Where a step throws, the loop is as before but for the counts of readings: the transaction will
  -- be tried again.
  abbrev pub IsUntouched : Loop S → Loop S → Option Fault → Type 0
  IsUntouched l m none = Unit
  IsUntouched l m (some e) =
      (m.recent ≡ l.recent) × (m.last ≡ l.last) × (m.failures ≡ l.failures) × (m.store ≡ l.store)

  abbrev Steps : Loop S → Loop S × Option Fault → Type 0
  Steps l (m, e) = IsAhead l.last m.last × IsUntouched l m e

module _ {T D S : Type 0} (decode : T → Result Fault D)
    (transaction : ℕ → String → ℕ → Result Fault (Option T)) (sink : S → D → Result Fault S) where
  stored-Steps :
      (l : Loop S) (item : SignatureInfo) (r : Result Fault S)
      → Steps l (stored decode transaction sink l item r)
  stored-Steps l item (ok s) = (newer-IsAhead l.last item, tt)
  stored-Steps l item (throw e) = (IsAhead-refl l.last, (refl, refl, refl, refl))

  handle_read-Steps :
      (l : Loop S) (item : SignatureInfo) (r : Result Fault (ReadResult D))
      → Steps l (handle_read decode transaction sink l item r)
  unfolding handle_read
  handle_read-Steps l item (ok (decoded d)) = stored-Steps l item (sink l.store d)
  handle_read-Steps l item (ok skipped) = (newer-IsAhead l.last item, tt)
  handle_read-Steps l item (throw e) = (IsAhead-refl l.last, (refl, refl, refl, refl))

  -- Handling a transaction never takes the newest handled one back; and where reading or storing
  -- it throws, nothing has changed but the counts of readings: it is neither remembered nor passed.
  pub handle-forward :
      (l : Loop S) (item : SignatureInfo) → Steps l (handle decode transaction sink l item)
  unfolding handle
  handle-forward l item = elim (Bool-cases (has l.recent item.signature)) [
    | inl old ↦ rw old (IsAhead-refl l.last, tt)
    | inr new ↦
        let (failures, result) =
          read decode l.read_failures item (transaction l.turn item.signature) in
        rw new
          (handle_read-Steps (record l { read_failures = failures; turn = suc l.turn }) item result)
  ]

  abbrev Goes : Loop S → Loop S × Option Fault → Type 0
  Goes l (m, e) = IsAhead l.last m.last

  and_then-Goes :
      (l : Loop S) (step : Loop S × Option Fault) (k : Loop S → Loop S × Option Fault)
      → Goes l step
      → ((m : Loop S) → Goes m (k m))
      → Goes l (and_then decode transaction sink step k)
  and_then-Goes l (m, none) k h j = IsAhead-trans l.last m.last _ h (j m)
  and_then-Goes l (m, some e) k h j = h

  handle_all-Goes :
      (aborted : ℕ → Bool) (l : Loop S) (items : List SignatureInfo)
      → Goes l (handle_all decode transaction sink aborted l items)
  unfolding handle_all
  handle_all-Goes aborted l [] = IsAhead-refl l.last
  handle_all-Goes aborted l (item ∷ items) = elim (Bool-cases (aborted (length items))) [
    | inl stop ↦ rw stop (IsAhead-refl l.last)
    | inr on ↦
        let (ahead, _) = handle-forward l item in
        rw on (
          and_then-Goes l (handle decode transaction sink l item)
            (λ m. handle_all decode transaction sink aborted m items) ahead
            (λ m. handle_all-Goes aborted m items))
  ]

  catch_up-Goes :
      (aborted : ℕ → Bool) (l : Loop S) (missed : Result Fault (List SignatureInfo × Bool))
      → Goes l (handle_missed decode transaction sink aborted l missed)
  catch_up-Goes aborted l (throw e) = IsAhead-refl l.last
  catch_up-Goes aborted l (ok (missed, cut)) = handle_all-Goes aborted l (reverse missed)

  -- Nor does catching up, wherever it stops, whatever the node answers.
  pub catch_up-forward :
      (aborted : ℕ → Bool) (since : Option String → Result Fault (List SignatureInfo)) (l : Loop S)
      → Goes l (catch_up decode transaction sink aborted since l)
  unfolding catch_up
  catch_up-forward aborted since l = catch_up-Goes aborted l _
