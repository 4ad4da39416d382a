-- ===== src/Indexer/Poll/Addresses.antt =====
-- apps/indexer/src/poll.ts: the addresses at which a wallet is polled.
use cancel_chain.Common.{
  ◌≡◌, ◌⊎◌, inl, inr, ap, subst, ◌∙◌, String, true, ◌||◌, List, [], ◌∷◌, ◌++◌, map, arith, eq_iff,
  str_eq, includes, includes-append, All, Among, Bool-cases,
}
use cancel_chain.Chain.Read.Plans.{distinct}
use cancel_chain.Chain.Read.Plans.Derived.{distinct-includes}
use cancel_chain.Indexer.Poll.{Permission, PollerOptions, addresses_of}

pub All-includes :
    (P : String → Type 0) (xs : List String) (a : String) → All P xs → includes xs a ≡ true → P a
unfolding includes
All-includes P [] a h k = absurd (ground (arith, k))
All-includes P (x ∷ xs) a (p, h) k = elim (Bool-cases (str_eq x a)) [
  | inl same ↦ let is : x ≡ a = ground (arith, same, eq_iff x a) in subst P is p
  | inr other ↦ All-includes P xs a h (ground (arith, k, other, eq_iff x a))
]

module _ {A : Type 0} (f : A → String) where
  includes-Among : (x : A) (xs : List A) → Among x xs → includes (map f xs) (f x) ≡ true
  unfolding includes
  includes-Among x [] h = absurd h
  includes-Among x (y ∷ xs) (inl same) =
      let is : f x ≡ f y = ap f same in ground (arith, eq_iff (f y) (f x), is)
  includes-Among x (y ∷ xs) (inr h) = ground (arith, includes-Among x xs h)

includes-map :
    (f : String → String) (xs : List String) (x : String)
    → includes xs x ≡ true
    → includes (map f xs) (f x) ≡ true
unfolding includes
includes-map f [] x h = absurd (ground (arith, h))
includes-map f (y ∷ xs) x h = elim (Bool-cases (str_eq y x)) [
  | inl same ↦
      let is : f y ≡ f x = ap f (ground (arith, same, eq_iff y x)) in
      ground (arith, eq_iff (f y) (f x), is)
  | inr other ↦ ground (arith, includes-map f xs x (ground (arith, h, other, eq_iff y x)))
]

module _ {T D S : Type 0} (o : PollerOptions T D S) (owner : String) where
  -- A permission of the wallet, or the wallet's authority in a mint of one of them or in the mint
  -- that is settled in.
  abbrev pub IsAddressOf : S → String → Type 0
  IsAddressOf s a =
      (a ≡ o.find_subscription_authority owner o.settlement_mint)
      ⊎ ((m : Permission) × Among m (o.permissions s owner)
          × ((a ≡ m.pda) ⊎ (a ≡ o.find_subscription_authority owner m.mint)))

  pub addresses_of-includes :
      (s : S) (a : String) → IsAddressOf s a → includes (addresses_of o s owner) a ≡ true
  unfolding addresses_of includes
  addresses_of-includes s a h =
      let held = o.permissions s owner in
      let f = o.find_subscription_authority owner in
      let named = o.settlement_mint ∷ map (λ p. p.mint) held in
      let mints = distinct [] named in
      let pdas = map (λ p. p.pda) held in
      let whole : includes (distinct [] (map f mints ++ pdas)) a
          ≡ (includes (map f mints) a || includes pdas a) =
        distinct-includes [] (map f mints ++ pdas) a ∙ includes-append (map f mints) pdas a in
      let under : (mint : String)
          → includes named mint ≡ true
          → includes (map f mints) (f mint) ≡ true =
        λ mint k. includes-map f mints mint (distinct-includes [] named mint ∙ k) in
      elim h [
        | inl own ↦
            let there =
              under o.settlement_mint
                (ground (arith, eq_iff o.settlement_mint o.settlement_mint)) in
            ground (arith, whole, own, there)
        | inr (m, among, inl own) ↦
            let there = includes-Among (λ p. p.pda) m held among in
            ground (arith, whole, own, there)
        | inr (m, among, inr own) ↦
            let stands = includes-Among (λ p. p.mint) m held among in
            let there = under m.mint (ground (arith, stands)) in ground (arith, whole, own, there)
      ]
