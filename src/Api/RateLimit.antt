-- ===== src/Api/RateLimit.antt =====
-- apps/api/src/rateLimit.ts: at most so many requests of one client in any window of time. The
-- client's key and the moment of a request are given; moments are milliseconds and start at zero, so
-- "after the threshold `at - window`" is written without the subtraction.
pub mod Windows
pub mod Limit
use cancel_chain.Common.{
  ℕ, suc, ◌+◌, ◌-◌, ◌/◌, String, Bool, true, false, ◌&&◌, Option, none, some, List, [], ◌∷◌, ◌++◌,
  ltb, leb, if◌then◌else◌, length, or_else,
}
use cancel_chain.Common.Dict.{get, set, delete}

pub record Limiter : Type 0 where
  pub limit : ℕ
  pub window_ms : ℕ

-- `windows` and `sinceSweep`
pub record LimiterState : Type 0 where
  pub windows : List (String × List ℕ)
  pub since_sweep : ℕ

abbrev pub sweep_every : ℕ
sweep_every = 512

pub data Verdict : Type 0 where
  limited : ℕ → Verdict
  passed : ℕ → Verdict

-- `at > threshold`
abbrev pub is_alive : ℕ → ℕ → ℕ → Bool
is_alive window_ms now at = ltb now (at + window_ms)

-- From the first live one on.
unfoldable pub prune : ℕ → ℕ → List ℕ → List ℕ
prune window_ms now [] = []
prune window_ms now (at ∷ ats) =
    if is_alive window_ms now at then at ∷ ats else prune window_ms now ats

-- `windows.get(key) ?? []`
unfoldable pub window_of : String → List (String × List ℕ) → List ℕ
window_of key windows = or_else (get key windows) []

abbrev pub keys : List (String × List ℕ) → List String
keys [] = []
keys ((key, window) ∷ windows) = key ∷ keys windows

abbrev pub keep : String → List ℕ → List (String × List ℕ) → List (String × List ℕ)
keep key [] windows = delete key windows
keep key (at ∷ ats) windows = set key (at ∷ ats) windows

-- One pass over the map; the window of an entry is what the map has for its key.
unfoldable pub sweep_keys : ℕ → ℕ → List String → List (String × List ℕ) → List (String × List ℕ)
sweep_keys window_ms now [] windows = windows
sweep_keys window_ms now (key ∷ rest) windows =
    sweep_keys window_ms now rest (keep key (prune window_ms now (window_of key windows)) windows)

abbrev pub ceil_seconds : ℕ → ℕ
ceil_seconds ms = if leb ((ms + 999) / 1000) 1 then 1 else (ms + 999) / 1000

module _ (limiter : Limiter) where
  unfoldable pub sweep : ℕ → LimiterState → LimiterState
  sweep now s =
      if leb sweep_every (suc s.since_sweep)
      then record {
        windows = sweep_keys limiter.window_ms now (keys s.windows) s.windows;
        since_sweep = 0;
      }
      else record { windows = s.windows; since_sweep = suc s.since_sweep }

  -- The decision on the pruned window: what is stored for the key, and the answer.
  unfoldable pub decide : ℕ → List ℕ → List ℕ × Verdict
  decide now [] = (now ∷ [], passed (limiter.limit - 1))
  decide now (oldest ∷ ats) =
      if leb limiter.limit (length (oldest ∷ ats))
      then (oldest ∷ ats, limited (ceil_seconds (oldest + limiter.window_ms - now)))
      else (
        oldest ∷ (ats ++ (now ∷ [])),
        passed (limiter.limit - length (oldest ∷ (ats ++ (now ∷ [])))),
      )

  unfoldable pub handle : LimiterState → String → ℕ → LimiterState × Verdict
  handle s key now =
      let swept = sweep now s in
      let (window, verdict) =
        decide now (prune limiter.window_ms now (window_of key swept.windows)) in
      (record { windows = set key window swept.windows; since_sweep = swept.since_sweep }, verdict)

pub record Request : Type 0 where
  pub key : String
  pub at : ℕ

abbrev pub fresh_limiter : LimiterState
fresh_limiter = record { windows = []; since_sweep = 0 }

-- The requests, newest first, and what became of each.
unfoldable pub run : Limiter → List Request → LimiterState × List (Request × Verdict)
run limiter [] = (fresh_limiter, [])
run limiter (r ∷ rs) =
    let (s, log) = run limiter rs in
    let (s', verdict) = handle limiter s r.key r.at in (s', (r, verdict) ∷ log)
