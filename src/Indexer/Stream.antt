-- ===== src/Indexer/Stream.antt =====
-- apps/indexer/src/subscribe.ts: runIndexer's handle and catchUp. The node is a parameter whose
-- answers may change from one turn to the next; `S` is what the sink writes to.
pub mod Pages
pub mod Forward
pub mod Whole
use mathlib.Core.List.{reverse}
use cancel_chain.Common.{
  ℕ, zero, suc, ◌+◌, String, Bool, true, false, Option, none, some, List, [], ◌∷◌, ◌++◌, ltb, leb,
  if◌then◌else◌, is_some, length, Result, ok, throw, ◌>>=◌,
}
use cancel_chain.Indexer.Reader.{
  SignatureInfo, RecentSignatures, has, add, Fault, ReadResult, decoded, skipped, read,
  catch_up_page, catch_up_max_pages,
}

-- The variables of `runIndexer`; `turn` counts the transactions that were read.
pub record Loop (S : Type 0) : Type 0 where
  pub recent : RecentSignatures
  pub last : Option SignatureInfo
  pub failures : ℕ
  pub read_failures : List (String × ℕ)
  pub turn : ℕ
  pub store : S

-- `if (last === null || item.slot >= last.slot) last = item`
unfoldable pub newer : Option SignatureInfo → SignatureInfo → Option SignatureInfo
newer none item = some item
newer (some last) item = if leb last.slot item.slot then some item else some last

-- `batch[batch.length - 1]?.signature`
abbrev pub last_signature : List SignatureInfo → Option String
last_signature [] = none
last_signature (x ∷ []) = some x.signature
last_signature (x ∷ y ∷ xs) = last_signature (y ∷ xs)

-- The pages before `from`, newest first, with the pages that are left; and whether the gap was too
-- large for them.
unfoldable pub collect :
    (Option String → Result Fault (List SignatureInfo))
    → ℕ
    → ℕ
    → Option String
    → List SignatureInfo
    → Result Fault (List SignatureInfo × Bool)
collect since page zero before missed = ok (missed, is_some before)
collect since page (suc n) before missed = since before >>= (λ batch.
    elim (ltb (length batch) page) [
      | true ↦ ok (missed ++ batch, false)
      | false ↦ collect since page n (last_signature batch) (missed ++ batch)
    ])

module _ {T D S : Type 0} (decode : T → Result Fault D)
    (transaction : ℕ → String → ℕ → Result Fault (Option T)) (sink : S → D → Result Fault S) where
  abbrev pub finished : Loop S → SignatureInfo → Loop S
  finished l item = record l {
    recent = add l.recent item.signature;
    last = newer l.last item;
    failures = 0;
  }

  -- A loop with what its step threw.
  abbrev pub stored : Loop S → SignatureInfo → Result Fault S → Loop S × Option Fault
  stored l item (ok s) = (finished (record l { store = s }) item, none)
  stored l item (throw e) = (l, some e)

  unfoldable pub handle_read :
      Loop S → SignatureInfo → Result Fault (ReadResult D) → Loop S × Option Fault
  handle_read l item (ok (decoded d)) = stored l item (sink l.store d)
  handle_read l item (ok skipped) = (finished l item, none)
  handle_read l item (throw e) = (l, some e)

  abbrev pub handle_new :
      Loop S
      → SignatureInfo
      → List (String × ℕ) × Result Fault (ReadResult D)
      → Loop S × Option Fault
  handle_new l item (failures, result) =
      handle_read (record l { read_failures = failures; turn = suc l.turn }) item result

  unfoldable pub handle : Loop S → SignatureInfo → Loop S × Option Fault
  handle l item =
      if has l.recent item.signature
      then (l, none)
      else handle_new l item (read decode l.read_failures item (transaction l.turn item.signature))

  abbrev pub and_then :
      Loop S × Option Fault → (Loop S → Loop S × Option Fault) → Loop S × Option Fault
  and_then (l, none) k = k l
  and_then (l, some e) k = (l, some e)

  -- One after another, up to the first that throws; `aborted` is asked with how many are left.
  unfoldable pub handle_all : (ℕ → Bool) → Loop S → List SignatureInfo → Loop S × Option Fault
  handle_all aborted l [] = (l, none)
  handle_all aborted l (item ∷ items) =
      if aborted (length items)
      then (l, none)
      else and_then (handle l item) (λ m. handle_all aborted m items)

  -- `catchUp`: what was missed, oldest first; the second part is whether the gap was too large.
  abbrev pub handle_missed :
      (ℕ → Bool) → Loop S → Result Fault (List SignatureInfo × Bool) → Loop S × Option Fault
  handle_missed aborted l (throw e) = (l, some e)
  handle_missed aborted l (ok (missed, cut)) = handle_all aborted l (reverse missed)

  unfoldable pub catch_up :
      (ℕ → Bool)
      → (Option String → Result Fault (List SignatureInfo))
      → Loop S
      → Loop S × Option Fault
  catch_up aborted since l =
      handle_missed aborted l (collect since catch_up_page catch_up_max_pages none [])
