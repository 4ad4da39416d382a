-- ===== src/Shared/Reasons.antt =====
-- packages/shared/src/reasons.ts: why a charge was refused, as a category or as an unknown.
pub mod Classify
use cancel_chain.Common.{
  ℕ, String, Bool, true, false, not, ◌&&◌, ◌||◌, Option, none, some, ◌==◌, str_eq, if◌then◌else◌,
}

pub data RejectReason : Type 0 where
  revoked cap_exceeded paused expired insufficient_funds wrong_mint not_due_yet : RejectReason
  merchant_account_missing : RejectReason

abbrev pub subscriptions_program : String
subscriptions_program = "De1egAFMkMWZSN5rYXRj9CAdheBamobVNubTsi9avR44"

abbrev pub token_program : String
token_program = "TokenkegQfeZyiNwAJbNbGKPFXCWuBvf9Ss623VQ5DA"

abbrev pub token_2022_program : String
token_2022_program = "TokenzQdBNbLqP5VEhdkAS6EPFLC1PHnBqCXEpPxuEb"

-- How the program refused; an unrecognised error is not looked into.
pub data Failure : Type 0 where
  custom : ℕ → Failure
  runtime : String → Failure
  unrecognised : Failure

pub record Existed : Type 0 where
  pub source : Bool
  pub destination : Bool

pub record AuthorityFacts : Type 0 where
  pub existed : Option Bool
  pub is_subscribers : Option Bool

-- `null` and a missing field are both `none`.
pub record RejectionFacts : Type 0 where
  pub failure : Failure
  pub raised_by : Option String
  pub token_accounts_existed : Option Existed
  pub authority : Option AuthorityFacts

-- What the text of `unmapped` says.
pub data Unmapped : Type 0 where
  no_failing_program : Unmapped
  unmapped_runtime : String → String → Unmapped
  unmapped_failure : String → Unmapped
  unmapped_accounts : ℕ → String → Option Existed → Unmapped
  unmapped_authority : ℕ → String → Option AuthorityFacts → Unmapped
  unmapped_code : ℕ → String → Unmapped

pub data Classification : Type 0 where
  known : RejectReason → Classification
  unknown : Unmapped → Classification

-- The rows of `BY_PROGRAM_AND_CODE`.
unfoldable pub by_subscriptions : ℕ → Option RejectReason
by_subscriptions code =
    if code == 125
    then some wrong_mint
    else if code == 128
    then some expired
    else if code == 136
    then some revoked
    else if code == 300
    then some cap_exceeded
    else if code == 400
    then some cap_exceeded
    else if code == 401
    then some not_due_yet
    else if code == 407
    then some not_due_yet
    else if code == 501
    then some expired
    else none

unfoldable pub by_token : ℕ → Option RejectReason
by_token code =
    if code == 1 then some insufficient_funds else if code == 3 then some wrong_mint else none

unfoldable pub by_program_and_code : String → ℕ → Option RejectReason
by_program_and_code program code =
    if str_eq program subscriptions_program
    then by_subscriptions code
    else if str_eq program token_program || str_eq program token_2022_program
    then by_token code
    else none

abbrev pub subscription_cancelled : ℕ
subscription_cancelled = 508

abbrev pub token_account_data : ℕ → Bool
token_account_data code = code == 110 || code == 107

abbrev pub invalid_authority : ℕ
invalid_authority = 103

-- `x === true` and `x === false` where `x` may be `null`.
abbrev pub is_true : Option Bool → Bool
is_true (some true) = true
is_true _ = false

abbrev pub is_false : Option Bool → Bool
is_false (some false) = true
is_false _ = false

unfoldable pub missing_account : ℕ → String → Option Existed → Classification
missing_account code by none = unknown (unmapped_accounts code by none)
missing_account code by (some e) =
    if e.source && not e.destination
    then known merchant_account_missing
    else if not e.source && e.destination
    then known insufficient_funds
    else unknown (unmapped_accounts code by (some e))

unfoldable pub dead_authority : ℕ → String → Option AuthorityFacts → Classification
dead_authority code by none = unknown (unmapped_authority code by none)
dead_authority code by (some a) =
    if is_true a.is_subscribers && is_false a.existed
    then known revoked
    else unknown (unmapped_authority code by (some a))

abbrev pub from_table : ℕ → String → Option RejectReason → Classification
from_table code by none = unknown (unmapped_code code by)
from_table code by (some r) = known r

-- The branches on a code of `classifyRejection`.
unfoldable pub classify_code : RejectionFacts → Bool → String → ℕ → Classification
classify_code facts paused_label by code =
    let ours = str_eq by subscriptions_program in
    if ours && code == subscription_cancelled
    then known (if paused_label then paused else revoked)
    else if ours && token_account_data code
    then missing_account code by facts.token_accounts_existed
    else if ours && code == invalid_authority
    then dead_authority code by facts.authority
    else from_table code by (by_program_and_code by code)

unfoldable pub classify_failure : RejectionFacts → Bool → String → Failure → Classification
unfolding classify_code
classify_failure facts paused_label by (runtime name) =
    if str_eq by subscriptions_program && str_eq name "InvalidAccountOwner"
    then known revoked
    else unknown (unmapped_runtime name by)
classify_failure facts paused_label by unrecognised = unknown (unmapped_failure by)
classify_failure facts paused_label by (custom code) = classify_code facts paused_label by code

abbrev pub classify_raised : RejectionFacts → Bool → Option String → Classification
classify_raised facts paused_label none = unknown no_failing_program
classify_raised facts paused_label (some by) = classify_failure facts paused_label by facts.failure

-- `classifyRejection`; the context is its one field, the pause label.
unfoldable pub classify_rejection : RejectionFacts → Bool → Classification
unfolding classify_failure
classify_rejection facts paused_label = classify_raised facts paused_label facts.raised_by
