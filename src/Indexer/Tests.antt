-- ===== src/Indexer/Tests.antt =====
-- Runs of the indexer on a small transaction and small tables.
mod Telling
mod Following
use cancel_chain.Common.{
  ◌≤◌, add_to, includes, Option, ◌≡◌, refl, String, true, false, none, some, List, [], ◌∷◌, ◌++◌,
  map, arith, ok,
}
use cancel_chain.Common.Dict.{set, get}
use cancel_chain.Shared.Allowance.{EventKind, subscription, active, paused, Allowance}
use cancel_chain.Shared.Allowance.WellFormed.{IsWellFormed}
use cancel_chain.Chain.Events.{read_program_event, starts_with_tag}
use cancel_chain.Chain.Tests.Eventful.{kit}
use cancel_chain.Indexer.Decode.{
  TransactionRecord, Sdk, revoke_delegation, all_instructions, account_table, static_metas,
  loaded_metas, to_address, locate_all, locate, metas_at, placed_from, inner_of,
}
use cancel_chain.Indexer.Decode.Bodies.{revoked, from_instruction}
use cancel_chain.Indexer.Decode.Transaction.{
  DecodedTransaction, lists_of, read_all, outcome, decode_signed, decode_transaction,
}
use cancel_chain.Indexer.Decode.Positions.{Rising, event_place, decode_transaction-Rising}
use cancel_chain.Indexer.Store.{Database, EventRow, no_detail, refused_for, upsert_allowance}
use cancel_chain.Chain.Read.Wallet.{AllowanceReadOne}
use cancel_chain.Indexer.Store.Rows.{
  rows_for, touched, updated_plans, on_plans, under_closed, direct_rows, authority_rows,
}
use cancel_chain.Indexer.Store.Invariant.{IsSound, write-IsSound}
use cancel_chain.Indexer.Store.Progress.{IsRead, slot_of, cursor_slot, commit-forward}
use cancel_chain.Indexer.Store.Write.{
  ChainState, open_at, chain_states, chain_state, to_read, distinct, apply_states, pending, base_of,
  accepts, commit, write, WriteResult, backfill_reasons, backfill_rows, backfill_row,
}
use cancel_chain.Shared.Reasons.{
  custom, subscriptions_program, cap_exceeded, classify_rejection, by_program_and_code,
  by_subscriptions,
}

-- One instruction of the program, which closes a permission.
abbrev sdk : Sdk
sdk = record {
  is_valid = λ key. true;
  base58 = λ text. [];
  parse = λ ix. some (revoke_delegation "permission");
  find_subscription = λ plan subscriber. "permission";
  find_subscription_authority = λ user mint. "authority";
  kit = kit;
}

abbrev closing : TransactionRecord
closing = record {
  slot = 500;
  block_time = some 1_790_000_000;
  signatures = "signature" ∷ [];
  account_keys = "wallet" ∷ "program" ∷ [];
  header = record {
    num_required_signatures = 1;
    num_readonly_signed_accounts = 0;
    num_readonly_unsigned_accounts = 1;
  };
  instructions = record { program_id_index = 1; accounts = 0 ∷ []; data_text = "data" } ∷ [];
  meta = none;
}

abbrev decoded : DecodedTransaction
decoded = record {
  signature = "signature";
  slot = 500;
  block_time = some 1_790_000_000;
  failed = false;
  events =
      record {
        signature = "signature";
        slot = 500;
        block_time = some 1_790_000_000;
        instruction_index = 0;
        position = 0;
        body = revoked "permission";
      }
      ∷ [];
  problems = [];
  logs = [];
}

decodes : decode_transaction sdk closing "program" ≡ ok decoded
unfolding decode_transaction decode_signed all_instructions account_table static_metas loaded_metas
    to_address locate_all locate metas_at placed_from inner_of lists_of read_all outcome
    from_instruction read_program_event starts_with_tag
decodes = refl

decode_transaction-Rising_example : Rising 0 (map event_place decoded.events)
decode_transaction-Rising_example = decode_transaction-Rising sdk closing "program" decoded decodes

abbrev stored : Allowance
stored = record {
  pda = "permission";
  owner = "wallet";
  delegate = "merchant";
  mint = "usdc";
  kind = subscription;
  cap_amount = 5_000_000;
  period_seconds = some 2_592_000;
  spent_in_period = 0;
  period_started_at = some 1_790_000_000_000;
  expires_at = none;
  paused_at = some 1_790_000_500_000;
  ends_at = none;
  status = paused;
  plan_pda = some "plan";
  last_slot = 400;
  synced_at = 1_790_001_000_000;
}

abbrev read_again : Allowance
read_again = record stored { status = active; paused_at = none }

stored-IsWellFormed : IsWellFormed stored
stored-IsWellFormed = record {
  has_period = refl;
  start_needs_period = λ _. λ e. ground arith;
  pause_of_subscription = λ h. refl;
  end_of_subscription = λ h. refl;
  pause_is_status = refl;
}

read_again-IsRead : IsRead read_again
read_again-IsRead = record {
  shape = record {
    has_period = refl;
    start_needs_period = λ _. λ e. ground arith;
    pause_of_subscription = λ h. refl;
    end_of_subscription = λ h. refl;
    pause_is_status = refl;
  };
  unpaused = refl;
}

abbrev tables : Database
tables = record {
  allowances = ("permission", stored) ∷ [];
  events = [];
  cursor = some (record { last_signature = "before"; last_slot = 450 });
  heartbeats = [];
}

tables-IsSound : IsSound tables
tables-IsSound = record { tracked = tt; unique = tt; lawful = tt }

abbrev derive : String → String → String
derive owner mint = "authority"

abbrev states : List (String × ChainState)
states = ("permission", open_at 500 read_again) ∷ []

-- What the network answers about the permission.
abbrev read : String → Option AllowanceReadOne
read pda = some (record {
  slot = 500;
  synced_at = 1_790_002_000_000;
  allowance = some (record { allowance = read_again; asset_supported = true });
  unreadable = none;
})

abbrev wrote : Database × WriteResult
wrote = commit derive tables decoded true 1_790_002_000_000 states

writes : write derive read tables decoded true 1_790_002_000_000 ≡ some wrote
unfolding write chain_states chain_state to_read distinct touched updated_plans on_plans
    under_closed accepts apply_states pending direct_rows authority_rows base_of upsert_allowance
    add_to includes rows_for get set
writes = refl

write-IsSound_example : IsSound wrote.0
write-IsSound_example =
    write-IsSound derive read tables wrote.0 decoded true 1_790_002_000_000 wrote.1 tables-IsSound
      writes

commit-forward_example :
    let after = (commit derive tables decoded true 1_790_002_000_000 states).0 in
    (slot_of (get "permission" tables.allowances) ≤ slot_of (get "permission" after.allowances))
    × (450 ≤ cursor_slot after.cursor)
    × ((tail : List EventRow) × (after.events ≡ [] ++ tail))
commit-forward_example =
    commit-forward derive tables decoded true 1_790_002_000_000 states "permission"

abbrev one_row : List EventRow
one_row =
    record {
      signature = "signature";
      slot = 500;
      block_time = 1_790_000_000_000;
      allowance_pda = "permission";
      position = 0;
      kind = EventKind.revoked;
      amount = none;
      reason = none;
      charges_stop_at = none;
      raw = record { logs = []; log_count = 0; block_time_estimated = false };
      detail = no_detail;
    }
    ∷ []

-- A refusal that was stored without a reason and has one by now.
abbrev refused_row : EventRow
refused_row = record {
  signature = "signature";
  slot = 500;
  block_time = 1_790_000_000_000;
  allowance_pda = "permission";
  position = 0;
  kind = EventKind.rejected;
  amount = some 7_000_000;
  reason = none;
  charges_stop_at = none;
  raw = record { logs = []; log_count = 0; block_time_estimated = false };
  detail = refused_for (record {
    failure = custom 400;
    raised_by = some subscriptions_program;
    token_accounts_existed = none;
    authority = none;
  });
}

abbrev tables_with_refusal : Database
tables_with_refusal = record tables { events = refused_row ∷ [] }

fills_in :
    (backfill_reasons tables_with_refusal).events
    ≡ record refused_row { reason = some cap_exceeded } ∷ []
unfolding backfill_reasons backfill_rows backfill_row classify_rejection by_program_and_code
    by_subscriptions get
fills_in = refl
