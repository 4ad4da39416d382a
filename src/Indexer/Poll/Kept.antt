-- ===== src/Indexer/Poll/Kept.antt =====
-- apps/indexer/src/poll.ts: the maps of one poll, and the order in which transactions are read.
use cancel_chain.Common.{
  ◌≡◌, ◌≤◌, refl, subst, ap, sym, ◌∙◌, inl, inr, String, true, ◌||◌, Option, none, some, List, [],
  ◌∷◌, map, arith, eq_iff, str_eq, leb, Bool-cases, includes, All,
}
use cancel_chain.Common.Dict.{get, set, has, get-set}
use cancel_chain.Chain.Read.Plans.{values}
use cancel_chain.Indexer.Reader.{SignatureInfo}
use cancel_chain.Indexer.Poll.{
  PolledSignature, moved, advance, advance_all, insert_by_slot, sort_by_slot, find_all,
}
use cancel_chain.Indexer.Stream.Forward.{IsAhead, IsAhead-refl, IsAhead-trans}

set-IsAhead :
    (a address : String) (to : SignatureInfo) (cursors : List (String × SignatureInfo))
    → IsAhead (get address cursors) (some to)
    → IsAhead (get a cursors) (get a (set address to cursors))
set-IsAhead a address to cursors h =
    subst (IsAhead (get a cursors)) (sym (get-set address a to cursors))
      (elim (Bool-cases (str_eq address a)) [
        | inl own ↦
            let same : address ≡ a = ground (arith, eq_iff address a) in
            rw own (subst (λ x. IsAhead (get x cursors) (some to)) same h)
        | inr other ↦ rw other (IsAhead-refl (get a cursors))
      ])

moved-IsAhead :
    (a address : String) (to : SignatureInfo) (cursors : List (String × SignatureInfo))
    (at : Option SignatureInfo)
    → get address cursors ≡ at
    → IsAhead (get a cursors) (get a (moved address to cursors at))
moved-IsAhead a address to cursors none h =
    set-IsAhead a address to cursors (subst (λ o. IsAhead o (some to)) (sym h) tt)
moved-IsAhead a address to cursors (some stored) h = elim (Bool-cases (leb stored.slot to.slot)) [
  | inl later ↦
      let ahead : stored.slot ≤ to.slot = ground (arith, later) in
      rw later (set-IsAhead a address to cursors (subst (λ o. IsAhead o (some to)) (sym h) ahead))
  | inr before ↦ rw before (IsAhead-refl (get a cursors))
]

advance-IsAhead :
    (a address : String) (to : SignatureInfo) (cursors : List (String × SignatureInfo))
    → IsAhead (get a cursors) (get a (advance address to cursors))
unfolding advance
advance-IsAhead a address to cursors = moved-IsAhead a address to cursors (get address cursors) refl

pub advance_all-IsAhead :
    (a : String) (heads cursors : List (String × SignatureInfo))
    → IsAhead (get a cursors) (get a (advance_all heads cursors))
unfolding advance_all
advance_all-IsAhead a [] cursors = IsAhead-refl (get a cursors)
advance_all-IsAhead a ((address, head) ∷ heads) cursors =
    IsAhead-trans (get a cursors) (get a (advance address head cursors)) _
      (advance-IsAhead a address head cursors)
      (advance_all-IsAhead a heads (advance address head cursors))

abbrev pub signatures : List PolledSignature → List String
signatures = map (λ x. x.info.signature)

insert-includes :
    (x : PolledSignature) (xs : List PolledSignature) (y : String)
    → includes (signatures (insert_by_slot x xs)) y
      ≡ (str_eq x.info.signature y || includes (signatures xs) y)
unfolding insert_by_slot includes
insert-includes x [] y = refl
insert-includes x (z ∷ xs) y = ground (arith, insert-includes x xs y)

-- Sorting loses no signature.
pub sort-includes :
    (xs : List PolledSignature) (y : String)
    → includes (signatures (sort_by_slot xs)) y ≡ includes (signatures xs) y
unfolding sort_by_slot includes
sort-includes [] y = refl
sort-includes (x ∷ xs) y =
    insert-includes x (sort_by_slot xs) y
    ∙ ap (λ b. str_eq x.info.signature y || b) (sort-includes xs y)

-- Each entry is found under its own signature.
abbrev pub Keyed : String × PolledSignature → Type 0
Keyed (key, x) = x.info.signature ≡ key

set-Keyed :
    (x : PolledSignature) (m : List (String × PolledSignature))
    → All Keyed m
    → All Keyed (set x.info.signature x m)
unfolding set
set-Keyed x [] h = (refl, tt)
set-Keyed x ((key, y) ∷ m) (k, h) = elim (Bool-cases (str_eq key x.info.signature)) [
  | inl same ↦ rw same (refl, h)
  | inr other ↦ rw other (k, set-Keyed x m h)
]

pub find_all-Keyed :
    (xs : List PolledSignature) (m : List (String × PolledSignature))
    → All Keyed m
    → All Keyed (find_all xs m)
unfolding find_all
find_all-Keyed [] m h = h
find_all-Keyed (x ∷ xs) m h = find_all-Keyed xs (set x.info.signature x m) (set-Keyed x m h)

has-set :
    (k y : String) (x : PolledSignature) (m : List (String × PolledSignature))
    → has y m ≡ true
    → has y (set k x m) ≡ true
has-set k y x m h = ground (arith, get-set k y x m)

pub find_all-has :
    (xs : List PolledSignature) (m : List (String × PolledSignature)) (y : String)
    → has y m ≡ true
    → has y (find_all xs m) ≡ true
unfolding find_all
find_all-has [] m y h = h
find_all-has (x ∷ xs) m y h =
    find_all-has xs (set x.info.signature x m) y (has-set x.info.signature y x m h)

pub find_all-own :
    (xs : List PolledSignature) (m : List (String × PolledSignature))
    → All (λ x. has x.info.signature (find_all xs m) ≡ true) xs
unfolding find_all
find_all-own [] m = tt
find_all-own (x ∷ xs) m = (
  find_all-has xs (set x.info.signature x m) x.info.signature (
      ground (
        arith,
        get-set x.info.signature x.info.signature x m,
        eq_iff x.info.signature x.info.signature,
      )),
  find_all-own xs (set x.info.signature x m),
)

pub includes-values :
    (m : List (String × PolledSignature)) (y : String)
    → All Keyed m
    → has y m ≡ true
    → includes (signatures (values m)) y ≡ true
unfolding get includes
includes-values [] y h k = absurd (ground arith)
includes-values ((key, x) ∷ m) y (own, h) k =
    ground (arith, includes-values m y h, eq_iff key y, eq_iff x.info.signature y, own)
