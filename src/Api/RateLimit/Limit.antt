-- ===== src/Api/RateLimit/Limit.antt =====
-- apps/api/src/rateLimit.ts: which requests of one client pass in a window of time.
use cancel_chain.Common.{
  ℕ, ◌≤◌, ◌<◌, ◌≡◌, ◌↔◌, refl, sym, ap, subst, ◌∙◌, String, true, false, List, [], ◌∷◌, ◌++◌, arith,
  length, str_eq, eq_iff, All, Bool-cases, inl, inr, ◌⊎◌,
}
use cancel_chain.Common.Dict.{get, set}
use cancel_chain.Api.RateLimit.{
  Limiter, LimiterState, Verdict, limited, passed, prune, window_of, sweep, decide, handle, Request,
  run,
}
use cancel_chain.Api.RateLimit.Windows.{
  alive_count, accepted, InOrder, Ascend, count_monotone, cons-count, count-append, prune-count,
  prune-Ascend, prune-length, Ascend-append, window_of-set, IsFaithful, raise-IsFaithful,
  sweep-IsFaithful, decide-passed, decide-limited,
}

Verdict-cases : (v : Verdict) → ((r : ℕ) × (v ≡ passed r)) ⊎ ((r : ℕ) × (v ≡ limited r))
Verdict-cases (passed r) = inl (r, refl)
Verdict-cases (limited r) = inr (r, refl)

module _ (limiter : Limiter) (some_limit : 0 < limiter.limit) (log : List (Request × Verdict))
    (s : LimiterState) (r : Request) (h : IsFaithful limiter.window_ms r.at s.windows log) where
  abbrev swept : LimiterState
  swept = sweep limiter r.at s

  abbrev pruned : List ℕ
  pruned = prune limiter.window_ms r.at (window_of r.key swept.windows)

  swept-IsFaithful : IsFaithful limiter.window_ms r.at swept.windows log
  swept-IsFaithful = sweep-IsFaithful limiter log r.at s h

  pruned-length : length pruned ≡ alive_count limiter.window_ms r.at (accepted r.key log)
  pruned-length =
      prune-length limiter.window_ms r.at 0 r.at (window_of r.key swept.windows)
        (swept-IsFaithful.ascends r.key)
      ∙ swept-IsFaithful.agrees r.key r.at (omega arith)

  abbrev verdict : Verdict
  verdict = (decide limiter r.at pruned).1

  verdict_iff :
      (alive_count limiter.window_ms r.at (accepted r.key log) < limiter.limit)
      ↔ ((remaining : ℕ) × (verdict ≡ passed remaining))
  verdict_iff = elim (Verdict-cases verdict) [
    | inl (n, h) ↦ ground (arith, pruned-length, decide-passed limiter r.at n pruned some_limit h)
    | inr (n, h) ↦ ground (arith, pruned-length, decide-limited limiter r.at n pruned some_limit h)
  ]

  -- The new entry of the map, whichever the verdict.
  stored : Verdict → List ℕ
  stored v = elim v [ limited reset ↦ pruned | passed remaining ↦ pruned ++ (r.at ∷ []) ]

  stored-Ascend : (v : Verdict) → Ascend r.at 0 (stored v)
  unfolding stored
  stored-Ascend (limited reset) =
      prune-Ascend limiter.window_ms r.at 0 r.at _ (swept-IsFaithful.ascends r.key)
  stored-Ascend (passed remaining) =
      Ascend-append limiter.window_ms r.at 0 r.at pruned (omega arith)
        (prune-Ascend limiter.window_ms r.at 0 r.at _ (swept-IsFaithful.ascends r.key))

  own-accepted :
      (remaining : ℕ) → accepted r.key ((r, passed remaining) ∷ log) ≡ r.at ∷ accepted r.key log
  unfolding accepted
  own-accepted remaining =
      let same : str_eq r.key r.key ≡ true = ground (arith, eq_iff r.key r.key) in rw same refl

  limited-accepted : (reset : ℕ) → accepted r.key ((r, limited reset) ∷ log) ≡ accepted r.key log
  unfolding accepted
  limited-accepted reset = refl

  pruned-count :
      (later : ℕ)
      → r.at ≤ later
      → alive_count limiter.window_ms later pruned
        ≡ alive_count limiter.window_ms later (accepted r.key log)
  pruned-count later q =
      prune-count limiter.window_ms r.at later (window_of r.key swept.windows) q
      ∙ swept-IsFaithful.agrees r.key later q

  stored-count :
      (v : Verdict) (later : ℕ)
      → r.at ≤ later
      → alive_count limiter.window_ms later (stored v)
        ≡ alive_count limiter.window_ms later (accepted r.key ((r, v) ∷ log))
  unfolding stored
  stored-count (limited reset) later q = rw (limited-accepted reset) (pruned-count later q)
  stored-count (passed remaining) later q = rw (own-accepted remaining) (
      count-append limiter.window_ms later pruned r.at
      ∙ cons-count limiter.window_ms later r.at pruned (accepted r.key log) (pruned-count later q))

  other-accepted :
      (v : Verdict) (other : String)
      → str_eq r.key other ≡ false
      → accepted other ((r, v) ∷ log) ≡ accepted other log
  unfolding accepted
  other-accepted (limited reset) other differs = refl
  other-accepted (passed remaining) other differs = rw differs refl

  stored-IsFaithful :
      (v : Verdict)
      → IsFaithful limiter.window_ms r.at (set r.key (stored v) swept.windows) ((r, v) ∷ log)
  stored-IsFaithful v = record {
    ascends = λ other. elim (Bool-cases (str_eq r.key other)) [
      | inl same ↦
          let is : window_of other (set r.key (stored v) swept.windows) ≡ stored v =
            ground (arith, window_of-set r.key other (stored v) swept.windows) in
          rw is (stored-Ascend v)
      | inr differs ↦
          let is : window_of other (set r.key (stored v) swept.windows)
              ≡ window_of other swept.windows =
            ground (arith, window_of-set r.key other (stored v) swept.windows) in
          rw is (swept-IsFaithful.ascends other)
    ];
    agrees = λ other later q. elim (Bool-cases (str_eq r.key other)) [
      | inl same ↦
          let is : window_of other (set r.key (stored v) swept.windows) ≡ stored v =
            ground (arith, window_of-set r.key other (stored v) swept.windows) in
          let name : r.key ≡ other = ground (arith, eq_iff r.key other) in
          rw is (
            stored-count v later q
            ∙ ap (λ k. alive_count limiter.window_ms later (accepted k ((r, v) ∷ log))) name)
      | inr differs ↦
          let is : window_of other (set r.key (stored v) swept.windows)
              ≡ window_of other swept.windows =
            ground (arith, window_of-set r.key other (stored v) swept.windows) in
          rw (is, other-accepted v other differs) (swept-IsFaithful.agrees other later q)
    ];
  }

  decided : (decide limiter r.at pruned).0 ≡ stored verdict
  unfolding stored
  decided = elim (Verdict-cases verdict) [
    | inl (n, h) ↦ (decide-passed limiter r.at n pruned some_limit h).0 ∙ ap stored (sym h)
    | inr (n, h) ↦ (decide-limited limiter r.at n pruned some_limit h).0 ∙ ap stored (sym h)
  ]

  handle-IsFaithful :
      IsFaithful limiter.window_ms r.at
        (handle limiter s r.key r.at).0.windows
        ((r, (handle limiter s r.key r.at).1) ∷ log)
  unfolding handle
  handle-IsFaithful = rw decided (stored-IsFaithful verdict)

module _ (limiter : Limiter) (some_limit : 0 < limiter.limit) where
  empty-IsFaithful : (now : ℕ) → IsFaithful limiter.window_ms now [] []
  unfolding window_of accepted get
  empty-IsFaithful now = record { ascends = λ key. omega arith; agrees = λ key later q. refl }

  run-IsFaithful :
      (now : ℕ) (rs : List Request)
      → All (λ q. q.at ≤ now) rs
      → InOrder rs
      → IsFaithful limiter.window_ms now (run limiter rs).0.windows (run limiter rs).1
  unfolding run
  run-IsFaithful now [] _ _ = empty-IsFaithful now
  run-IsFaithful now (r ∷ rs) (before, _) (newest, ordered) =
      raise-IsFaithful limiter.window_ms _ r.at now _ before (
        handle-IsFaithful limiter some_limit (run limiter rs).1 (run limiter rs).0 r
          (run-IsFaithful r.at rs newest ordered))

  -- Where the limit is positive, after any requests in the order of their moments the next one
  -- passes exactly where fewer than the limit of the same client's passed in the window before
  -- it.
  pub handle-passes_iff :
      (r : Request) (rs : List Request)
      → InOrder (r ∷ rs)
      → (alive_count limiter.window_ms r.at (accepted r.key (run limiter rs).1) < limiter.limit)
        ↔ ((remaining : ℕ) × ((handle limiter (run limiter rs).0 r.key r.at).1 ≡ passed remaining))
  unfolding handle
  handle-passes_iff r rs (newest, ordered) =
      verdict_iff limiter some_limit (run limiter rs).1 (run limiter rs).0 r
        (run-IsFaithful r.at rs newest ordered)

  step-bounded :
      (log : List (Request × Verdict)) (r : Request) (v : Verdict) (key : String)
      → alive_count limiter.window_ms r.at (accepted key log) ≤ limiter.limit
      → ((remaining : ℕ) × (v ≡ passed remaining)
          → alive_count limiter.window_ms r.at (accepted r.key log) < limiter.limit)
      → alive_count limiter.window_ms r.at (accepted key ((r, v) ∷ log)) ≤ limiter.limit
  unfolding accepted
  step-bounded log r (limited reset) key h below = h
  step-bounded log r (passed remaining) key h below = elim (Bool-cases (str_eq r.key key)) [
    | inl same ↦
        let name : r.key ≡ key = ground (arith, eq_iff r.key key) in
        let fewer : alive_count limiter.window_ms r.at (accepted key log) < limiter.limit =
          subst (λ k. alive_count limiter.window_ms r.at (accepted k log) < limiter.limit) name
            (below (remaining, refl)) in
        rw same (cons-bounded r.at (accepted key log) fewer)
    | inr differs ↦ rw differs h
  ]
    where
      cons-bounded :
          (at : ℕ) (ats : List ℕ)
          → alive_count limiter.window_ms at ats < limiter.limit
          → alive_count limiter.window_ms at (at ∷ ats) ≤ limiter.limit
      cons-bounded at ats p = ground arith

  -- Where the limit is positive, at any moment at most the limit of one client's requests has
  -- passed in the window that ends then, when the requests came in the order of their moments and
  -- none is later than it.
  pub accepted-bounded :
      (now : ℕ) (key : String) (rs : List Request)
      → All (λ q. q.at ≤ now) rs
      → InOrder rs
      → alive_count limiter.window_ms now (accepted key (run limiter rs).1) ≤ limiter.limit
  unfolding run accepted
  accepted-bounded now key [] _ _ = omega arith
  accepted-bounded now key (r ∷ rs) (before, earlier) (newest, ordered) =
      let passes = handle-passes_iff r rs (newest, ordered) in
      let here =
        step-bounded (run limiter rs).1 r (handle limiter (run limiter rs).0 r.key r.at).1 key
          (accepted-bounded r.at key rs newest ordered) passes.1 in
      omega (
        arith,
        here,
        count_monotone limiter.window_ms r.at now (accepted key (run limiter (r ∷ rs)).1) before,
      )
