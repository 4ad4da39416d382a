-- ===== src/Indexer/Notify/Due.antt =====
-- apps/indexer/src/notify.ts: which charges are announced, and which deliveries can be claimed.
use cancel_chain.Common.{
  ℕ, ◌+◌, ◌-◌, ◌*◌, ◌≡◌, ◌⊎◌, ◌<◌, ◌≤◌, String, true, false, none, some, List, [], ◌∷◌, includes,
  All,
}
use cancel_chain.Shared.Allowance.{Allowance, active}
use cancel_chain.Indexer.Notify.{NotifyTables, PushSubscription, Delivery, claimed}
use cancel_chain.Indexer.Notify.Charges.{DueRow, due_at, due_claim, upcoming_delivery}

abbrev pub Stored : List (String × Allowance) → Allowance → Type 0
Stored [] a = ⊥
Stored ((pda, b) ∷ rows) a = (a ≡ b) ⊎ Stored rows a

-- A stored permission that will be charged, and a subscription of its owner.
pub record Charges (rows : List (String × Allowance)) (r : DueRow) : Type 0 where
  pub stored : Stored rows r.allowance
  pub running : r.allowance.status ≡ active
  pub endless : r.allowance.ends_at ≡ none
  pub unpaused : r.allowance.paused_at ≡ none
  pub period : r.allowance.period_seconds ≡ some r.period_seconds
  pub started : r.allowance.period_started_at ≡ some r.period_started_at
  pub heard : r.subscription.owner ≡ r.allowance.owner

abbrev row_of : Allowance → ℕ × ℕ → PushSubscription → DueRow
row_of a (period, start) s = record {
  allowance = a;
  period_seconds = period;
  period_started_at = start;
  subscription = s;
}

-- And its charge is ahead, near enough to be announced.
pub record IsDue (lead_ms : ℕ) (rows : List (String × Allowance)) (at : ℕ) (r : DueRow)
    : Type 0 where
  pub charges : Charges rows r
  pub ahead : at < due_at r
  pub within : due_at r ≤ at + lead_ms
  pub half : (due_at r - at) * 2 ≤ r.period_seconds * 1000

module _
    (refresh : List (String × Allowance) → List String → List (String × Allowance) × List String)
    (usdc_mint : String) (lead_ms : ℕ) (db : NotifyTables) (at : ℕ) where
  -- A charge that is announced: it was due and not told yet, and after the permission was read
  -- again the same period of the same permission is still due, for a permission that is there.
  pub record IsAnnounced (read : NotifyTables) (on_chain : List String) (d : Delivery)
      : Type 0 where
    pub row : DueRow
    pub says : d ≡ upcoming_delivery usdc_mint at row
    pub due : IsDue lead_ms db.allowances at row
    pub untold : claimed db.claims d.claim ≡ false
    pub again : DueRow
    pub same : due_claim row ≡ due_claim again
    pub still : IsDue lead_ms read.allowances at again
    pub there : includes on_chain again.allowance.pda ≡ true

  abbrev Opens : DueRow → Type 0
  Opens r = IsDue lead_ms db.allowances at r × (claimed db.claims (due_claim r) ≡ false)

  -- Nothing is announced, or one reading of some permissions bears every announcement out.
  abbrev Announces : NotifyTables × List Delivery → Type 0
  Announces (read, ds) =
      (ds ≡ [])
      ⊎ ((pdas : List String) × (on_chain : List String) × (refresh db.allowances pdas
            ≡ (read.allowances, on_chain))
          × All (IsAnnounced read on_chain) ds)
