-- ===== src/Collector/Sync.antt =====
-- The collector at work (btc_data_collector/collect_btc_block.py): the thread that fetches blocks
-- into the queue, the main loop that takes them out, records their transactions and hands the
-- caches to the flush thread, the flush thread, and a restart of the process at any time. Their
-- interleavings are a step relation. `collect` stands for the recording of a transaction with the
-- multisig addresses of the start; the source reads them anew (`_update_cache`) before each block.
pub mod Expected
pub mod Invariant
pub mod Once
pub mod Stamped
pub mod Progress
pub mod Tests
use cross_chain_mid_ware.Base.{
  ℕ, zero, suc, ◌+◌, ◌-◌, ◌≡◌, ◌≢◌, String, Bool, true, false, ◌&&◌, ◌||◌, Option, none, some, List,
  [], ◌∷◌, ◌++◌, str_eq, length, ltb, leb, ◌==◌, if◌then◌else◌,
}
use cross_chain_mid_ware.Base.Result.{Result, ok, err, ◌>>=◌}
use cross_chain_mid_ware.Collector.Record.{Transfers}
use cross_chain_mid_ware.Collector.Store.{
  BlockInfo, BlockRow, get_json_data, Db, clear_last_garbage_data, FlushData, Phase, put_blocks,
  flush_step, next_phase,
}

abbrev pub no_transfers : Transfers
no_transfers = record { deposits = []; withdraws = [] }

-- The state of a running collector. `stop_flag` is never set before the process ends.
pub record System (Tx : Type 0) : Type 0 where
  pub db : Db
  -- `CollectBlockThread`
  pub last_sync_block_num : ℕ
  pub sync_status : Bool
  pub queue : List (BlockInfo Tx)
  -- `CacheManager`
  pub block_cache : List BlockRow
  pub transfers : Transfers
  pub flush_thread : Option (FlushData × Phase)

-- `_get_latest_block_num`, from the node's answer and the configured number of safe blocks. Where
-- the source's difference is below 0 there is nothing to fetch either.
unfoldable pub get_latest_block_num : Option ℕ → Option ℕ → Option ℕ
get_latest_block_num none safe = none
get_latest_block_num (some real) none = some (real - 6)
get_latest_block_num (some real) (some safe) = some (real - safe)

module _ {Tx : Type 0} (symbol : String)
    -- `collect_pretty_transaction` or `collect_pretty_transaction_btm`, of a block's number
    (collect_trx : Tx → ℕ → Transfers → Result Transfers) where
  -- The loop over a block's transactions. HC and DOGE skip those of block 0.
  unfoldable pub collect_transactions : List Tx → ℕ → Transfers → Result Transfers
  collect_transactions [] n c = ok c
  collect_transactions (t ∷ ts) n c =
      if (str_eq symbol "HC" || str_eq symbol "DOGE") && (n == 0)
      then collect_transactions ts n c
      else collect_trx t n c >>= λ c'. collect_transactions ts n c'

module _ {Tx : Type 0} (symbol sync_key : String)
    -- `collect_block`: the node's block of a number
    (fetch_block : ℕ → BlockInfo Tx) (collect_trx : Tx → ℕ → Transfers → Result Transfers) where
  -- One round of the loop of `process_blocks`.
  unfoldable pub process_blocks_round : Option ℕ → System Tx → System Tx
  process_blocks_round none s = record s { sync_status = false }
  process_blocks_round (some latest) s =
      if leb latest s.last_sync_block_num
      then record s { sync_status = false }
      else if ltb 10 (length s.queue)
      then s
      else record s {
        queue = s.queue ++ fetch_block s.last_sync_block_num ∷ [];
        last_sync_block_num = s.last_sync_block_num + 1;
      }

  -- A start of the process: `run` cleans up, and goes on from the saved number.
  unfoldable pub boot : Db → System Tx
  boot db =
      let (cleared, n) = clear_last_garbage_data symbol sync_key db in
      record {
        db = cleared;
        last_sync_block_num = n;
        sync_status = true;
        queue = [];
        block_cache = [];
        transfers = no_transfers;
        flush_thread = none;
      }

  -- The main loop with block `b` taken from the queue, up to the flush.
  abbrev pub take_block : BlockInfo Tx → List (BlockInfo Tx) → Transfers → System Tx → System Tx
  take_block b rest c s = record s {
    queue = rest;
    block_cache = s.block_cache ++ get_json_data b ∷ [];
    transfers = c;
  }

  -- `flush_to_db`, once the previous thread has ended.
  abbrev pub start_flush : System Tx → System Tx
  start_flush s = record s {
    block_cache = [];
    transfers = no_transfers;
    flush_thread = some (record { blocks = s.block_cache; transfers = s.transfers }, put_blocks);
  }

  -- The flush thread takes its next step, or ends.
  abbrev pub run_flush : FlushData → Phase → System Tx → System Tx
  run_flush d phase s = record s {
    db = flush_step sync_key d phase s.db;
    flush_thread = elim (next_phase phase) [ none ↦ none | some next ↦ some (d, next) ];
  }

  pub data Step (s : System Tx) : System Tx → Type 0 where
    fetch : (latest : Option ℕ) → Step s (process_blocks_round latest s)
    take :
        (b : BlockInfo Tx) (rest : List (BlockInfo Tx)) (c : Transfers)
        → s.block_cache ≡ []
        → s.queue ≡ b ∷ rest
        → collect_transactions symbol collect_trx b.transactions b.block_num s.transfers ≡ ok c
        → Step s (take_block b rest c s)
    flush : s.block_cache ≢ [] → s.flush_thread ≡ none → Step s (start_flush s)
    write :
        (d : FlushData) (phase : Phase)
        → s.flush_thread ≡ some (d, phase)
        → Step s (run_flush d phase s)
    restart : Step s (boot s.db)

  pub data Reach (s : System Tx) : System Tx → Type 0 where
    here : Reach s s
    next : {t u : System Tx} → Reach s t → Step t u → Reach s u
