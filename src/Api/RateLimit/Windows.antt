-- ===== src/Api/RateLimit/Windows.antt =====
-- apps/api/src/rateLimit.ts: what pruning, sweeping and deciding make of the windows.
use cancel_chain.Common.{
  ℕ, suc, ◌≤◌, ◌<◌, ◌≡◌, refl, sym, ap, ◌∙◌, String, true, List, [], ◌∷◌, ◌++◌, arith, leb,
  if◌then◌else◌, length, filter, str_eq, eq_iff, All, Bool-cases, inl, inr,
}
use cancel_chain.Common.Dict.{set, get-set, get-delete}
use cancel_chain.Api.RateLimit.{
  Limiter, LimiterState, Verdict, limited, passed, is_alive, prune, window_of, keys, keep,
  sweep_keys, sweep, sweep_every, decide, Request,
}

-- How many of the moments lie in the window that ends now.
abbrev pub alive_count : ℕ → ℕ → List ℕ → ℕ
alive_count window_ms now ats = length (filter (is_alive window_ms now) ats)

-- The moments of one client's requests that passed.
unfoldable pub accepted : String → List (Request × Verdict) → List ℕ
accepted key [] = []
accepted key ((r, limited reset) ∷ log) = accepted key log
accepted key ((r, passed remaining) ∷ log) =
    if str_eq r.key key then r.at ∷ accepted key log else accepted key log

-- Requests newest first, their moments in order.
abbrev pub InOrder : List Request → Type 0
InOrder [] = Unit
InOrder (r ∷ rs) = All (λ q. q.at ≤ r.at) rs × InOrder rs

-- Moments that ascend from `low` to `high`.
abbrev pub Ascend : ℕ → ℕ → List ℕ → Type 0
Ascend high low [] = low ≤ high
Ascend high low (at ∷ ats) = (low ≤ at) × Ascend high at ats

module _ (window_ms : ℕ) where
  pub prune-count :
      (now later : ℕ) (ats : List ℕ)
      → now ≤ later
      → alive_count window_ms later (prune window_ms now ats) ≡ alive_count window_ms later ats
  unfolding prune
  prune-count now later [] h = refl
  prune-count now later (at ∷ ats) h = ground (arith, prune-count now later ats h)

  pub count_monotone :
      (now later : ℕ) (ats : List ℕ)
      → now ≤ later
      → alive_count window_ms later ats ≤ alive_count window_ms now ats
  count_monotone now later [] h = omega arith
  count_monotone now later (at ∷ ats) h = ground (arith, count_monotone now later ats h)

  pub cons-count :
      (now at : ℕ) (xs ys : List ℕ)
      → alive_count window_ms now xs ≡ alive_count window_ms now ys
      → alive_count window_ms now (at ∷ xs) ≡ alive_count window_ms now (at ∷ ys)
  cons-count now at xs ys h = ground arith

  pub count-append :
      (now : ℕ) (ats : List ℕ) (at : ℕ)
      → alive_count window_ms now (ats ++ (at ∷ [])) ≡ alive_count window_ms now (at ∷ ats)
  count-append now [] at = refl
  count-append now (x ∷ ats) at = ground (arith, count-append now ats at)

  Ascend-lower :
      (high low lower : ℕ) (ats : List ℕ)
      → lower ≤ low
      → Ascend high low ats
      → Ascend high lower ats
  Ascend-lower high low lower [] p h = omega arith
  Ascend-lower high low lower (at ∷ ats) p (q, h) = (omega arith, h)

  pub prune-Ascend :
      (high low now : ℕ) (ats : List ℕ)
      → Ascend high low ats
      → Ascend high low (prune window_ms now ats)
  unfolding prune
  prune-Ascend high low now [] h = h
  prune-Ascend high low now (at ∷ ats) (p, h) = elim (Bool-cases (is_alive window_ms now at)) [
    | inl alive ↦ rw alive (p, h)
    | inr dead ↦ rw dead (prune-Ascend high low now ats (Ascend-lower high at low ats p h))
  ]

  all_alive :
      (high low now : ℕ) (ats : List ℕ)
      → is_alive window_ms now low ≡ true
      → Ascend high low ats
      → alive_count window_ms now ats ≡ length ats
  all_alive high low now [] p h = refl
  all_alive high low now (at ∷ ats) p (q, h) =
      let alive : is_alive window_ms now at ≡ true = ground arith in
      rw alive (ap suc (all_alive high at now ats alive h))

  -- What is left after pruning is alive.
  pub prune-length :
      (high low now : ℕ) (ats : List ℕ)
      → Ascend high low ats
      → length (prune window_ms now ats) ≡ alive_count window_ms now ats
  unfolding prune
  prune-length high low now [] h = refl
  prune-length high low now (at ∷ ats) (p, h) = elim (Bool-cases (is_alive window_ms now at)) [
    | inl alive ↦ rw alive (ap suc (sym (all_alive high at now ats alive h)))
    | inr dead ↦ rw dead (prune-length high at now ats h)
  ]

  pub Ascend-append :
      (high low now : ℕ) (ats : List ℕ)
      → high ≤ now
      → Ascend high low ats
      → Ascend now low (ats ++ (now ∷ []))
  Ascend-append high low now [] p h = (omega arith, omega arith)
  Ascend-append high low now (at ∷ ats) p (q, h) = (q, Ascend-append high at now ats p h)

  Ascend-raise :
      (high low now : ℕ) (ats : List ℕ) → high ≤ now → Ascend high low ats → Ascend now low ats
  Ascend-raise high low now [] p h = omega arith
  Ascend-raise high low now (at ∷ ats) p (q, h) = (q, Ascend-raise high at now ats p h)

window_of-keep :
    (key other : String) (window : List ℕ) (windows : List (String × List ℕ))
    → window_of other (keep key window windows)
      ≡ (if str_eq key other then window else window_of other windows)
unfolding window_of
window_of-keep key other [] windows = ground (arith, get-delete key other windows)
window_of-keep key other (at ∷ ats) windows = ground (arith, get-set key other (at ∷ ats) windows)

pub window_of-set :
    (key other : String) (window : List ℕ) (windows : List (String × List ℕ))
    → window_of other (set key window windows)
      ≡ (if str_eq key other then window else window_of other windows)
unfolding window_of
window_of-set key other window windows = ground (arith, get-set key other window windows)

-- What the windows say of the requests so far: the window of each key ascends to the last moment
-- and agrees with the log on what is alive, then and later.
pub record IsFaithful (window_ms now : ℕ) (windows : List (String × List ℕ))
    (log : List (Request × Verdict)) : Type 0 where
  pub ascends : (key : String) → Ascend now 0 (window_of key windows)
  pub agrees :
      (key : String) (later : ℕ)
      → now ≤ later
      → alive_count window_ms later (window_of key windows)
        ≡ alive_count window_ms later (accepted key log)

module _ (window_ms : ℕ) (log : List (Request × Verdict)) where
  pub raise-IsFaithful :
      (high now : ℕ) (windows : List (String × List ℕ))
      → high ≤ now
      → IsFaithful window_ms high windows log
      → IsFaithful window_ms now windows log
  raise-IsFaithful high now windows p h = record {
    ascends = λ key. Ascend-raise window_ms high 0 now (window_of key windows) p (h.ascends key);
    agrees = λ key later q. h.agrees key later (omega arith);
  }

  keep-IsFaithful :
      (now : ℕ) (key : String) (windows : List (String × List ℕ))
      → IsFaithful window_ms now windows log
      → IsFaithful window_ms now
          (keep key (prune window_ms now (window_of key windows)) windows)
          log
  keep-IsFaithful now key windows h =
      let pruned = prune window_ms now (window_of key windows) in
      record {
        ascends = λ other. elim (Bool-cases (str_eq key other)) [
          | inl same ↦
              let is : window_of other (keep key pruned windows) ≡ pruned =
                ground (arith, window_of-keep key other pruned windows) in
              rw is (prune-Ascend window_ms now 0 now (window_of key windows) (h.ascends key))
          | inr differs ↦
              let is : window_of other (keep key pruned windows) ≡ window_of other windows =
                ground (arith, window_of-keep key other pruned windows) in
              rw is (h.ascends other)
        ];
        agrees = λ other later q. elim (Bool-cases (str_eq key other)) [
          | inl same ↦
              let is : window_of other (keep key pruned windows) ≡ pruned =
                ground (arith, window_of-keep key other pruned windows) in
              let name : key ≡ other = ground (arith, eq_iff key other) in
              rw is (
                prune-count window_ms now later (window_of key windows) q
                ∙ h.agrees key later q
                ∙ ap (λ k. alive_count window_ms later (accepted k log)) name)
          | inr differs ↦
              let is : window_of other (keep key pruned windows) ≡ window_of other windows =
                ground (arith, window_of-keep key other pruned windows) in
              rw is (h.agrees other later q)
        ];
      }

  sweep_keys-IsFaithful :
      (now : ℕ) (names : List String) (windows : List (String × List ℕ))
      → IsFaithful window_ms now windows log
      → IsFaithful window_ms now (sweep_keys window_ms now names windows) log
  unfolding sweep_keys
  sweep_keys-IsFaithful now [] windows h = h
  sweep_keys-IsFaithful now (key ∷ names) windows h =
      sweep_keys-IsFaithful now names _ (keep-IsFaithful now key windows h)

module _ (limiter : Limiter) (log : List (Request × Verdict)) where
  pub sweep-IsFaithful :
      (now : ℕ) (s : LimiterState)
      → IsFaithful limiter.window_ms now s.windows log
      → IsFaithful limiter.window_ms now (sweep limiter now s).windows log
  unfolding sweep
  sweep-IsFaithful now s h = elim (Bool-cases (leb sweep_every (suc s.since_sweep))) [
    | inl due ↦
        rw due (sweep_keys-IsFaithful limiter.window_ms log now (keys s.windows) s.windows h)
    | inr early ↦ rw early h
  ]

module _ (limiter : Limiter) where
  -- What `decide` makes of a pruned window.
  pub decide-passed :
      (now remaining : ℕ) (window : List ℕ)
      → 0 < limiter.limit
      → (decide limiter now window).1 ≡ passed remaining
      → ((decide limiter now window).0 ≡ window ++ (now ∷ [])) × (length window < limiter.limit)
  unfolding decide
  decide-passed now remaining [] p h = (refl, p)
  decide-passed now remaining (at ∷ ats) p h = ground arith

  pub decide-limited :
      (now reset : ℕ) (window : List ℕ)
      → 0 < limiter.limit
      → (decide limiter now window).1 ≡ limited reset
      → ((decide limiter now window).0 ≡ window) × (limiter.limit ≤ length window)
  unfolding decide
  decide-limited now reset [] p h = absurd (ground arith)
  decide-limited now reset (at ∷ ats) p h = ground arith
