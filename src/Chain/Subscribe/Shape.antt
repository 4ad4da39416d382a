-- ===== src/Chain/Subscribe/Shape.antt =====
-- packages/chain/src/subscribe.ts: which lists of instructions are taken for a subscription.
use cancel_chain.Common.{
  ◌≡◌, ◌≢◌, ◌⊎◌, inl, inr, refl, subst, ap, String, Bool, true, false, none, some, List, [], ◌∷◌,
  arith, eq_iff, succeeds, ok, ==_iff,
}
use cancel_chain.Chain.Instructions.{
  SubscriptionsSdk, SubscriptionsInstruction, init_subscription_authority, subscribe, other,
  ParsedSubscribe,
}
use cancel_chain.Chain.Subscribe.Bounds.{
  Seen, SubscribeBounds, see, see_one, see_all, conclude, bounds_of, identified, parsed_of,
  read_subscribe_bounds,
}

module _ {I : Type 0} (sdk : SubscriptionsSdk I) (program : String) where
  abbrev pub Creates : I → Type 0
  Creates i = (sdk.program_of i ≡ program) × (sdk.identify i ≡ some init_subscription_authority)

  abbrev pub Subscribes : I → ParsedSubscribe → Type 0
  Subscribes i p =
      (sdk.program_of i ≡ program)
      × (sdk.identify i ≡ some subscribe)
      × (sdk.parse_subscribe i ≡ some p)

  -- One subscription against an authority that is known, or the creation of the authority before
  -- it, with the number that stands for "not known yet"; and nothing else.
  abbrev pub IsSubscription : List I → SubscribeBounds → Type 0
  IsSubscription is b =
      ((i : I) × (p : ParsedSubscribe) × (is ≡ i ∷ [])
        × Subscribes i p
        × (p.expected_init_id ≢ sdk.unknown_init_id)
        × (b ≡ bounds_of false p))
      ⊎ ((j : I) × (i : I) × (p : ParsedSubscribe) × (is ≡ j ∷ i ∷ [])
          × Creates j
          × Subscribes i p
          × (p.expected_init_id ≡ sdk.unknown_init_id)
          × (b ≡ bounds_of true p))

  abbrev Turns : Seen → I → Seen → Type 0
  Turns seen i next =
      (Creates i
        × (seen.inits ≡ false)
        × (seen.parsed ≡ none)
        × (next ≡ record { inits = true; parsed = none }))
      ⊎ ((p : ParsedSubscribe) × Subscribes i p
          × (seen.parsed ≡ none)
          × (next ≡ record { inits = seen.inits; parsed = some p }))

  see_sound :
      (seen next : Seen) (i : I) (kind : SubscriptionsInstruction)
      → sdk.program_of i ≡ program
      → sdk.identify i ≡ some kind
      → see sdk seen i kind ≡ ok next
      → Turns seen i next
  unfolding see
  see_sound seen next i init_subscription_authority own known h =
      inl ((own, known), ground arith, ground arith, ground arith)
  see_sound seen next i subscribe own known h =
      let (p, read) = succeeds (parsed_of (sdk.parse_subscribe i)) (λ e fails. ground arith) in
      inr (p, (own, known, ground (arith, read)), ground arith, ground (arith, read))
  see_sound seen next i (other n) own known h = absurd (ground arith)

  see_one_sound :
      (seen next : Seen) (i : I) → see_one sdk program seen i ≡ ok next → Turns seen i next
  unfolding see_one
  see_one_sound seen next i h =
      let (kind, known) = succeeds (identified (sdk.identify i)) (λ e fails. ground arith) in
      see_sound seen next i kind (ground (arith, eq_iff (sdk.program_of i) program))
        (ground (arith, known)) (ground (arith, known))

  abbrev start : Seen
  start = record { inits = false; parsed = none }

  see_all-after :
      (inits : Bool) (p : ParsedSubscribe) (is : List I) (last : Seen)
      → see_all sdk program (record { inits = inits; parsed = some p }) is ≡ ok last
      → (is ≡ []) × (last ≡ record { inits = inits; parsed = some p })
  unfolding see_all
  see_all-after inits p [] last h = (refl, ground arith)
  see_all-after inits p (i ∷ is) last h =
      let seen : Seen = record { inits = inits; parsed = some p } in
      let (next, turn) = succeeds (see_one sdk program seen i) (λ e fails. ground arith) in
      absurd (ground (arith, see_one_sound seen next i turn))

  -- The subscription that ends a list, with the last state.
  abbrev Ends : Bool → List I → Seen → Type 0
  Ends inits is last =
      (i : I) × (p : ParsedSubscribe) × (is ≡ i ∷ [])
      × Subscribes i p
      × (last ≡ record { inits = inits; parsed = some p })

  last_seen :
      (inits : Bool) (i : I) (is : List I) (p : ParsedSubscribe) (next last : Seen)
      → Subscribes i p
      → next ≡ record { inits = inits; parsed = some p }
      → see_all sdk program next is ≡ ok last
      → Ends inits (i ∷ is) last
  last_seen inits i is p next last s same rest =
      let (nil, lasts) =
        see_all-after inits p is last (subst (λ n. see_all sdk program n is ≡ ok last) same rest) in
      (i, p, ap (λ t. i ∷ t) nil, s, lasts)

  turn_of_init :
      (i : I) (is : List I) (next last : Seen)
      → Turns (record { inits = true; parsed = none }) i next
      → see_all sdk program next is ≡ ok last
      → Ends true (i ∷ is) last
  turn_of_init i is next last (inl (c, none_before, _, _)) rest = absurd (ground arith)
  turn_of_init i is next last (inr (p, s, _, same)) rest =
      last_seen true i is p next last s same rest

  see_all-init :
      (is : List I) (last : Seen)
      → see_all sdk program (record { inits = true; parsed = none }) is ≡ ok last
      → (last.parsed ≡ none) ⊎ Ends true is last
  unfolding see_all
  see_all-init [] last h = inl (ground arith)
  see_all-init (i ∷ is) last h =
      let seen : Seen = record { inits = true; parsed = none } in
      let (next, turn) = succeeds (see_one sdk program seen i) (λ e fails. ground arith) in
      inr (turn_of_init i is next last (see_one_sound seen next i turn) (ground (arith, turn)))

  abbrev Gives : Seen → SubscribeBounds → Type 0
  Gives last b = conclude sdk last.inits last.parsed ≡ ok b

  alone :
      (is : List I) (last : Seen) (b : SubscribeBounds)
      → Ends false is last
      → Gives last b
      → IsSubscription is b
  unfolding conclude
  alone is last b (i, p, one, s, lasts) gives =
      let g : conclude sdk false (some p) ≡ ok b = subst (λ l. Gives l b) lasts gives in
      inl
        (i, p, one, s, ground (arith, ==_iff p.expected_init_id sdk.unknown_init_id), ground arith)

  after_init :
      (j : I) (is : List I) (last : Seen) (b : SubscribeBounds)
      → Creates j
      → (last.parsed ≡ none) ⊎ Ends true is last
      → Gives last b
      → IsSubscription (j ∷ is) b
  unfolding conclude
  after_init j is last b c (inl nothing) gives = absurd (ground arith)
  after_init j is last b c (inr (i, p, one, s, lasts)) gives =
      let g : conclude sdk true (some p) ≡ ok b = subst (λ l. Gives l b) lasts gives in
      inr (
        j,
        i,
        p,
        ap (λ t. j ∷ t) one,
        c,
        s,
        ground (arith, ==_iff p.expected_init_id sdk.unknown_init_id),
        ground arith,
      )

  first_turn :
      (i : I) (is : List I) (next last : Seen) (b : SubscribeBounds)
      → Turns start i next
      → see_all sdk program next is ≡ ok last
      → Gives last b
      → IsSubscription (i ∷ is) b
  first_turn i is next last b (inl (c, _, _, same)) rest gives =
      after_init i is last b c
        (see_all-init is last (subst (λ n. see_all sdk program n is ≡ ok last) same rest)) gives
  first_turn i is next last b (inr (p, s, _, same)) rest gives =
      alone (i ∷ is) last b (last_seen false i is p next last s same rest) gives

  whole :
      (is : List I) (last : Seen) (b : SubscribeBounds)
      → see_all sdk program start is ≡ ok last
      → Gives last b
      → IsSubscription is b
  unfolding see_all conclude
  whole [] last b h gives = absurd (ground arith)
  whole (i ∷ is) last b h gives =
      let (next, turn) = succeeds (see_one sdk program start i) (λ e fails. ground arith) in
      first_turn i is next last b (see_one_sound start next i turn) (ground (arith, turn)) gives

  -- Bounds are read only from a list that is one subscription, with the creation of the authority
  -- before it or not, and they say what that subscription pins: no instruction of another
  -- program, no second subscription, nothing after it, and the authority's number is left open
  -- exactly where the authority is created before it.
  pub read_subscribe_bounds-IsSubscription :
      (is : List I) (b : SubscribeBounds)
      → read_subscribe_bounds sdk is program ≡ ok b
      → IsSubscription is b
  unfolding read_subscribe_bounds
  read_subscribe_bounds-IsSubscription is b h =
      let (last, seen) = succeeds (see_all sdk program start is) (λ e fails. ground arith) in
      whole is last b seen (ground (arith, seen))
