-- ===== src/Collector/Sync/Tests.antt =====
-- A run of the collector (btc_data_collector/collect_btc_block.py) over a chain with a deposit in
-- block 1, and the theorems about it applied there.
use cross_chain_mid_ware.Base.{ℕ, zero, suc, ◌≡◌, ◌≢◌, refl, ap, true, some, List, [], ◌∷◌, arith}
use cross_chain_mid_ware.Base.Text.{lower, show, zeros, len}
use cross_chain_mid_ware.Base.Dict.{lookup, has_key, add_to}
use cross_chain_mid_ware.Base.Double.{nearest, round_even, grow, shrink}
use cross_chain_mid_ware.Base.Result.{Result, ok}
use cross_chain_mid_ware.Collector.Record.{
  Transfer, Transfers, record_trx, record_type, record_deposit, deposit_of, trx_type,
}
use cross_chain_mid_ware.Collector.Amount.{fixed8}
use cross_chain_mid_ware.Collector.Scan.{elem, add_in, add_out}
use cross_chain_mid_ware.Collector.Trx.{
  BaseTrx, get_vout_address, find_vout, search_in_trx, collect_input, collect_vin, collect_output,
  collect_vout, collect_pretty_transaction,
}
use cross_chain_mid_ware.Collector.Store.{
  BlockInfo, get_json_data, Db, FlushData, put_blocks, put_deposits, put_withdraws,
  clear_last_garbage_data, remove_transfers, remove_blocks, remove_raw, flush_step,
}
use cross_chain_mid_ware.Collector.Store.Laws.{of_chain}
use cross_chain_mid_ware.Collector.Sync.{
  System, no_transfers, process_blocks_round, collect_transactions, boot, fetch, take, flush, write,
  Reach, here, next,
}
use cross_chain_mid_ware.Collector.Sync.Expected.{joined_below}
use cross_chain_mid_ware.Collector.Sync.Stamped.{
  collect_trx_btc, collect_trx_btm, collect_trx_btc-Stamps, caches_of,
}
use cross_chain_mid_ware.Collector.Sync.Once.{IsExact, boot-IsExact}
use cross_chain_mid_ware.Collector.Sync.Progress.{Collects, boot-saves}
use cross_chain_mid_ware.Collector.Tests.{
  as_listed, multisig, chain, user_pays, user_pays_run, deposited, paid, btm_pays, btm_run,
  btm_deposited,
}

abbrev transactions_of : ℕ → List BaseTrx
transactions_of zero = []
transactions_of (suc zero) = user_pays ∷ []
transactions_of (suc (suc k)) = []

abbrev block : ℕ → BlockInfo BaseTrx
block k = record {
  block_id = "id";
  block_num = k;
  block_size = 200;
  previous = "id";
  trx_digest = "root";
  transactions = transactions_of k;
}

abbrev collect : BaseTrx → ℕ → Transfers → Result Transfers
collect = collect_trx_btc as_listed multisig "BTC" chain

-- Block 0 is saved; a flush was cut off that had written the deposit of block 1, and the table
-- holds a transfer of another chain.
abbrev other_chain : Transfer
other_chain = record paid { chain_id = "ltc" }

abbrev cut_off : Db
cut_off = record {
  b_config = ("syncBlockNum", 1) ∷ [];
  b_block = [];
  b_deposit_transaction = other_chain ∷ paid ∷ [];
  b_withdraw_transaction = [];
  b_raw_transaction = [];
  b_raw_transaction_input = [];
  b_raw_transaction_output = [];
}

user_pays_collected :
    collect_transactions "BTC" collect (user_pays ∷ []) 1 no_transfers ≡ ok deposited
unfolding collect_transactions collect_trx_btc collect_pretty_transaction collect_vin collect_input
    get_vout_address find_vout search_in_trx add_in elem add_to collect_vout collect_output add_out
    has_key record_trx record_type record_deposit deposit_of trx_type fixed8 nearest round_even grow
    shrink lower show zeros len
user_pays_collected = refl

cut_off-IsExact : IsExact "BTC" "syncBlockNum" block collect cut_off
unfolding lookup of_chain joined_below collect_transactions collect_trx_btc
    collect_pretty_transaction collect_vin collect_input get_vout_address find_vout search_in_trx
    add_in elem add_to collect_vout collect_output add_out has_key record_trx record_type
    record_deposit deposit_of trx_type fixed8 nearest round_even grow shrink lower show zeros len
cut_off-IsExact = record {
  saved = 1;
  deposits = 2;
  withdraws = 1;
  is_saved = refl;
  held_d = refl;
  held_w = refl;
  saved_le = omega arith;
  withdraws_le = omega arith;
  deposits_le = omega arith;
}

heights : (k : ℕ) → (block k).block_num ≡ k
heights k = refl

collects : Collects "BTC" block collect
unfolding collect_transactions
collects zero = (no_transfers, refl)
collects (suc zero) = (deposited, user_pays_collected)
collects (suc (suc k)) = (no_transfers, refl)

-- The database once the deposit of block 1 is cleared, and written again.
abbrev cleared : Db
cleared = record cut_off { b_deposit_transaction = other_chain ∷ [] }

abbrev written : Db
written = record cut_off {
  b_block = get_json_data (block 1) ∷ [];
  b_deposit_transaction = other_chain ∷ paid ∷ [];
}

abbrev data_1 : FlushData
data_1 = record { blocks = get_json_data (block 1) ∷ []; transfers = deposited }

abbrev flushing : System BaseTrx
flushing = record {
  db = written;
  last_sync_block_num = 2;
  sync_status = true;
  queue = [];
  block_cache = [];
  transfers = no_transfers;
  flush_thread = some (data_1, put_withdraws);
}

not_empty : get_json_data (block 1) ∷ [] ≢ []
not_empty e = cc

saved_1 : lookup "syncBlockNum" cut_off.b_config ≡ some 1
unfolding lookup
saved_1 = refl

-- The process starts, fetches and records block 1, and its flush gets as far as the deposits.
run :
    Reach "BTC" "syncBlockNum" block collect
      (boot "BTC" "syncBlockNum" block collect cut_off)
      flushing
unfolding boot clear_last_garbage_data lookup remove_transfers remove_blocks remove_raw lower
    process_blocks_round flush_step
run =
    let fetched = next here (fetch (some 9)) in
    let taken = next fetched (take (block 1) [] deposited refl refl user_pays_collected) in
    let started = next taken (flush not_empty refl) in
    next (next started (write data_1 put_blocks refl)) (write data_1 put_deposits refl)

boot-IsExact_example : IsExact "BTC" "syncBlockNum" block collect written
boot-IsExact_example =
    boot-IsExact "BTC" "syncBlockNum" block collect
      (collect_trx_btc-Stamps as_listed multisig "BTC" chain) cut_off flushing heights
      cut_off-IsExact run

boot-saves_example :
    (t : System BaseTrx) × Reach "BTC" "syncBlockNum" block collect
      (boot "BTC" "syncBlockNum" block collect cut_off)
      t
    × (lookup "syncBlockNum" t.db.b_config ≡ some 5)
    × IsExact "BTC" "syncBlockNum" block collect t.db
boot-saves_example =
    boot-saves "BTC" "syncBlockNum" block collect
      (collect_trx_btc-Stamps as_listed multisig "BTC" chain) cut_off 1 5 heights collects
      cut_off-IsExact saved_1 (omega arith)

user_pays_btc :
    collect_trx_btc as_listed multisig "BTC" chain user_pays 1 no_transfers ≡ ok deposited
unfolding collect_trx_btc
user_pays_btc = ap caches_of user_pays_run

btm_pays_btm : collect_trx_btm as_listed multisig "BTM" btm_pays 1 no_transfers ≡ ok btm_deposited
unfolding collect_trx_btm
btm_pays_btm = ap caches_of btm_run
