-- ===== src/Indexer/Poll/Told.antt =====
-- apps/indexer/src/poll.ts: gathering the history of one address from its cursor on.
use mathlib.Core.List.{append_assoc, append-nil}
use cancel_chain.Common.{
  ℕ, zero, suc, ◌+◌, ◌-◌, ◌*◌, ◌/◌, ◌≡◌, ◌≤◌, ◌<◌, refl, ap, sym, ◌∙◌, inl, inr, String, true,
  false, Option, none, some, List, [], ◌∷◌, ◌++◌, arith, ltb, ◌||◌, Bool-cases, length,
  length-append, take, drop, filter, All, All-take, All-imp, Result, ok,
}
use cancel_chain.Common.Int.{ℤ, pos, ◌-ℤ◌, leb_ℤ, ◌≤ℤ◌}
use cancel_chain.Indexer.Reader.{SignatureInfo, Fault, catch_up_page, catch_up_max_pages}
use cancel_chain.Indexer.Reader.Paging.{
  before, last_key, last-before, take-append, take-inner, take-drop, drop-drop, drop-append,
  length-drop, All-drop, filter-all, filter-none,
}
use cancel_chain.Indexer.Poll.{
  PolledSignature, PollerOptions, cut_of, is_kept, last_of, collect_pages, collect,
}

abbrev pub key : PolledSignature → String
key x = x.info.signature

last_of_lem : (xs : List PolledSignature) → last_of xs ≡ last_key key xs
last_of_lem [] = refl
last_of_lem (x ∷ []) = refl
last_of_lem (x ∷ y ∷ xs) = last_of_lem (y ∷ xs)

-- A node that serves a history page by page, newest first, whichever of its items it is asked to go
-- on from.
abbrev pub ServesPages :
    (Option String → Result Fault (List PolledSignature)) → ℕ → List PolledSignature → Type 0
ServesPages pages page told =
    (n : ℕ) → n ≤ length told → pages (before key told n) ≡ ok (take page (drop n told))

ends_lem : (r t n : ℕ) → n ≡ r + t → r < catch_up_page → (ltb n catch_up_page || ltb r n) ≡ true
ends_lem r t n same small = ground (arith, same, small)

module _ (pages : Option String → Result Fault (List PolledSignature)) (cut : Option ℤ)
    (young old : List PolledSignature) (serves : ServesPages pages catch_up_page (young ++ old))
    (kept : All (λ x. is_kept cut x ≡ true) young)
    (left : All (λ x. is_kept cut x ≡ false) old) where
  -- The page that holds the end of what is kept.
  last_page :
      (n m : ℕ) (items : List PolledSignature)
      → n ≤ length young
      → length young < n + catch_up_page
      → collect_pages pages cut (suc m) (before key (young ++ old) n) items
        ≡ ok (items ++ drop n young)
  unfolding collect_pages
  last_page n m items h few =
      let r = drop n young in
      let t = take (catch_up_page - length r) old in
      let shorter : length r ≤ catch_up_page = omega (arith, length-drop n young, few) in
      let batch : take catch_up_page (drop n (young ++ old)) ≡ r ++ t =
        ap (take catch_up_page) (drop-append n young old h)
        ∙ take-append catch_up_page r old shorter in
      let chosen : filter (is_kept cut) (r ++ t) ≡ r =
        filter-append r t
        ∙ ap (λ a. a ++ filter (is_kept cut) t)
            (filter-all (is_kept cut) r (All-drop (λ x. is_kept cut x ≡ true) n young kept))
        ∙ ap (λ a. r ++ a)
            (filter-none (is_kept cut) t
              (All-take (λ x. is_kept cut x ≡ false) (catch_up_page - length r) old left))
        ∙ append-nil r in
      let ends : ltb (length (r ++ t)) catch_up_page || ltb (length r) (length (r ++ t)) ≡ true =
        ends_lem (length r) (length t) (length (r ++ t)) (length-append r t)
          (omega (arith, length-drop n young, few, h)) in
      ground (arith, serves n (omega (arith, h, length-append young old)), batch, chosen, ends)
    where
      filter-append :
          (xs ys : List PolledSignature)
          → filter (is_kept cut) (xs ++ ys) ≡ filter (is_kept cut) xs ++ filter (is_kept cut) ys
      filter-append [] ys = refl
      filter-append (x ∷ xs) ys = ground (arith, filter-append xs ys)

  collect_from :
      (m n : ℕ) (items : List PolledSignature)
      → n ≤ length young
      → length young < n + m * catch_up_page
      → collect_pages pages cut m (before key (young ++ old) n) items ≡ ok (items ++ drop n young)
  unfolding collect_pages
  collect_from zero n items h fits = absurd (omega (arith, h, fits))
  collect_from (suc m) n items h fits = elim (Bool-cases (ltb (length young) (n + catch_up_page))) [
    | inl few ↦ last_page n m items h (ground (arith, few))
    | inr more ↦
        let r = drop n young in
        let many : n + catch_up_page ≤ length young = ground (arith, more) in
        let enough : catch_up_page ≤ length r = omega (arith, many, length-drop n young) in
        let b = take catch_up_page r in
        let batch : take catch_up_page (drop n (young ++ old)) ≡ b =
          ap (take catch_up_page) (drop-append n young old h)
          ∙ take-inner catch_up_page r old enough in
        let chosen : filter (is_kept cut) b ≡ b = filter-all (is_kept cut) b (
          All-take (λ x. is_kept cut x ≡ true) catch_up_page r
            (All-drop (λ x. is_kept cut x ≡ true) n young kept)) in
        let full : length b ≡ catch_up_page = length-take-exact catch_up_page r enough in
        let goes : ltb (length b) catch_up_page || ltb (length b) (length b) ≡ false =
          ground (arith, full) in
        let next : last_of b ≡ before key (young ++ old) (suc (n + 999)) =
          last_of_lem b
          ∙ ap (last_key key) (sym batch)
          ∙ last-before key n 999 (n + 999) (young ++ old) refl
              (omega (arith, many, length-append young old)) in
        let on =
          collect_from m (suc (n + 999)) (items ++ b) (omega (arith, many)) (omega (arith, fits)) in
        let rest : (items ++ b) ++ drop (suc (n + 999)) young ≡ items ++ r =
          append_assoc items b (drop (suc (n + 999)) young)
          ∙ ap (λ t. items ++ (b ++ t))
              (sym (drop-drop n catch_up_page (suc (n + 999)) young (omega arith)))
          ∙ ap (λ t. items ++ t) (take-drop catch_up_page r) in
        ground (
          arith,
          serves n (omega (arith, h, length-append young old)),
          batch,
          chosen,
          goes,
          next,
          on,
          rest,
        )
  ]
    where
      length-take-exact :
          (k : ℕ) (xs : List PolledSignature) → k ≤ length xs → length (take k xs) ≡ k
      length-take-exact zero xs h = refl
      length-take-exact (suc k) [] h = absurd (omega (arith, h))
      length-take-exact (suc k) (x ∷ xs) h =
          omega (arith, length-take-exact k xs (omega (arith, h)))

-- What an address that is read for the first time still tells: with a retention of so many days,
-- what is not older, or bears no time. From a cursor on, and without a retention, it tells all.
abbrev pub InTime : Option ℤ → ℤ → Type 0
InTime none start = Unit
InTime (some time) start = start ≤ℤ time

abbrev pub IsWithin : Option SignatureInfo → Option ℕ → ℕ → PolledSignature → Type 0
IsWithin (some from) days now x = Unit
IsWithin none none now x = Unit
IsWithin none (some days) now x = InTime x.block_time (pos (now / 1000) -ℤ pos (days * 86_400))

within_lem :
    (from : Option SignatureInfo) (days : Option ℕ) (now : ℕ) (x : PolledSignature)
    → (IsWithin from days now x → is_kept (cut_of from days now) x ≡ true)
      × (¬ IsWithin from days now x → is_kept (cut_of from days now) x ≡ false)
unfolding cut_of is_kept
within_lem (some from) days now x = (λ h. refl, λ h. absurd (h tt))
within_lem none none now x = (λ h. refl, λ h. absurd (h tt))
within_lem none (some days) now x =
    times x.block_time (pos (now / 1000) -ℤ pos (days * 86_400))
      (pos (now / 1000) -ℤ pos (days * 24 * 60 * 60))
      (ap (λ n. pos (now / 1000) -ℤ pos n) (omega arith))
  where
    times :
        (time : Option ℤ) (start cut : ℤ)
        → start ≡ cut
        → (InTime time start → elim time [ none ↦ true | some at ↦ leb_ℤ cut at ] ≡ true)
          × (¬ InTime time start → elim time [ none ↦ true | some at ↦ leb_ℤ cut at ] ≡ false)
    times none start cut same = (λ h. refl, λ h. absurd (h tt))
    times (some at) start cut same = (λ h. ground (arith, same, h), λ h. ground (arith, same, h))

abbrev pub cursor_signature : Option SignatureInfo → Option String
cursor_signature none = none
cursor_signature (some c) = some c.signature

module _ {T D S : Type 0} (o : PollerOptions T D S) where
  -- The history of an address after a cursor, newest first: what is within the retention, and what
  -- is older. The node serves it in pages, and the first part is smaller than the pages that are
  -- read.
  pub record IsHistory (now : ℕ) (address : String) (from : Option SignatureInfo)
      (young old : List PolledSignature) : Type 0 where
    pub served :
        ServesPages (o.signatures_for address (cursor_signature from)) catch_up_page (young ++ old)
    pub recent : All (IsWithin from o.retention_days now) young
    pub past : All (λ x. ¬ IsWithin from o.retention_days now x) old
    pub fits : length young < catch_up_max_pages * catch_up_page

  pub collect-young :
      (now : ℕ) (address : String) (from : Option SignatureInfo) (young old : List PolledSignature)
      → IsHistory now address from young old
      → collect o now address from ≡ ok young
  unfolding collect
  collect-young now address none young old h =
      collect_from (o.signatures_for address none) (cut_of none o.retention_days now) young old
        h.served (All-imp _ _ (λ x k. (within_lem none o.retention_days now x).0 k) young h.recent)
        (All-imp _ _ (λ x k. (within_lem none o.retention_days now x).1 k) old h.past) 10 0 []
        (omega arith) h.fits
  collect-young now address (some c) young old h =
      collect_from (o.signatures_for address (some c.signature))
        (cut_of (some c) o.retention_days now) young old h.served
        (All-imp _ _ (λ x k. (within_lem (some c) o.retention_days now x).0 k) young h.recent)
        (All-imp _ _ (λ x k. (within_lem (some c) o.retention_days now x).1 k) old h.past) 10 0 []
        (omega arith) h.fits
