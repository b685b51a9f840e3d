-- ===== src/Collector/Store.antt =====
-- What the collector writes: the records of blocks (btc_data_collector/block_btc.py), the
-- collections of the database, the caches and the flush thread of `CacheManager`, and the clean-up
-- at a start, `clear_last_garbage_data` (btc_data_collector/collect_btc_block.py).
pub mod Laws
use cross_chain_mid_ware.Base.{
  ℕ, zero, suc, ◌+◌, String, Bool, true, false, ◌&&◌, not, Option, none, some, List, [], ◌∷◌, ◌++◌,
  map, str_eq, leb, if◌then◌else◌,
}
use cross_chain_mid_ware.Base.Text.{lower}
use cross_chain_mid_ware.Base.Dict.{Dict, lookup, has_key, insert}
use cross_chain_mid_ware.Collector.Record.{Transfer, Transfers}

-- A block as the node answers `getblock`; times are left out.
pub record BlockResult (Tx : Type 0) : Type 0 where
  pub hash : String
  pub height : ℕ
  pub size : ℕ
  pub previousblockhash : String
  pub merkleroot : String
  pub tx : List Tx

-- `BlockInfoBtc`
pub record BlockInfo (Tx : Type 0) : Type 0 where
  pub block_id : String
  pub block_num : ℕ
  pub block_size : ℕ
  pub previous : String
  pub trx_digest : String
  pub transactions : List Tx

unfoldable pub from_block_resp : {Tx : Type 0} → BlockResult Tx → BlockInfo Tx
from_block_resp r = record {
  block_id = r.hash;
  block_num = r.height;
  block_size = r.size;
  previous = r.previousblockhash;
  trx_digest = r.merkleroot;
  transactions = r.tx;
}

-- A record of `b_block`.
pub record BlockRow : Type 0 where
  pub block_hash : String
  pub chain_id : String
  pub block_number : ℕ
  pub block_size : ℕ
  pub previous : String
  pub trx_digest : String

-- The chain is "btc" for every coin.
unfoldable pub get_json_data : {Tx : Type 0} → BlockInfo Tx → BlockRow
get_json_data b = record {
  block_hash = b.block_id;
  chain_id = "btc";
  block_number = b.block_num;
  block_size = b.block_size;
  previous = b.previous;
  trx_digest = b.trx_digest;
}

-- A record of the tables of raw transactions, which only the clean-up touches.
pub record RawRow : Type 0 where
  pub chain_id : String
  pub block_num : ℕ

-- The collections in use; of `b_config` the entries with a block number.
pub record Db : Type 0 where
  pub b_config : Dict ℕ
  pub b_block : List BlockRow
  pub b_deposit_transaction : List Transfer
  pub b_withdraw_transaction : List Transfer
  pub b_raw_transaction : List RawRow
  pub b_raw_transaction_input : List RawRow
  pub b_raw_transaction_output : List RawRow

-- `remove({"blockNum": {"$gte": n}, "chainId": chain})`
unfoldable pub remove_transfers : String → ℕ → List Transfer → List Transfer
remove_transfers chain n [] = []
remove_transfers chain n (t ∷ ts) =
    let rest = remove_transfers chain n ts in
    if str_eq t.chain_id chain && leb n t.block_num then rest else t ∷ rest

unfoldable pub remove_blocks : String → ℕ → List BlockRow → List BlockRow
remove_blocks chain n [] = []
remove_blocks chain n (b ∷ bs) =
    let rest = remove_blocks chain n bs in
    if str_eq b.chain_id chain && leb n b.block_number then rest else b ∷ rest

unfoldable pub remove_raw : String → ℕ → List RawRow → List RawRow
remove_raw chain n [] = []
remove_raw chain n (r ∷ rs) =
    let rest = remove_raw chain n rs in
    if str_eq r.chain_id chain && leb n r.block_num then rest else r ∷ rest

abbrev pub clear_from : String → ℕ → Db → Db
clear_from chain n db = record db {
  b_block = remove_blocks chain n db.b_block;
  b_deposit_transaction = remove_transfers chain n db.b_deposit_transaction;
  b_withdraw_transaction = remove_transfers chain n db.b_withdraw_transaction;
  b_raw_transaction = remove_raw chain n db.b_raw_transaction;
  b_raw_transaction_input = remove_raw chain n db.b_raw_transaction_input;
  b_raw_transaction_output = remove_raw chain n db.b_raw_transaction_output;
}

-- The database cleaned up and the block to start from.
abbrev pub clear_at : String → Option ℕ → Db → Db × ℕ
clear_at symbol none db = (db, 0)
clear_at symbol (some n) db = (clear_from (lower symbol) n db, n)

unfoldable pub clear_last_garbage_data : String → String → Db → Db × ℕ
clear_last_garbage_data symbol sync_key db = clear_at symbol (lookup sync_key db.b_config) db

-- `update({"key": k}, {"$set": ...})`: without the option to insert it changes what is there.
unfoldable pub update_config : String → ℕ → Dict ℕ → Dict ℕ
update_config k n config = if has_key k config then insert k n config else config

-- What `flush_to_db` hands to its thread: the blocks and the transfers of the caches.
pub record FlushData : Type 0 where
  pub blocks : List BlockRow
  pub transfers : Transfers

-- The next thing that the thread does.
pub data Phase : Type 0 where
  put_blocks put_deposits put_withdraws put_config : Phase

unfoldable pub last_number : List BlockRow → Option ℕ
last_number [] = none
last_number (b ∷ []) = some b.block_number
last_number (b ∷ c ∷ bs) = last_number (c ∷ bs)

-- One step of `flush_process`. Without a block the number to save raises, and the thread ends.
unfoldable pub flush_step : String → FlushData → Phase → Db → Db
flush_step key d put_blocks db = record db { b_block = db.b_block ++ d.blocks }
flush_step key d put_deposits db = record db {
  b_deposit_transaction = db.b_deposit_transaction ++ d.transfers.deposits;
}
flush_step key d put_withdraws db = record db {
  b_withdraw_transaction = db.b_withdraw_transaction ++ d.transfers.withdraws;
}
flush_step key d put_config db = elim (last_number d.blocks) [
  | none ↦ db
  | some n ↦ record db { b_config = update_config key n db.b_config }
]

abbrev pub next_phase : Phase → Option Phase
next_phase put_blocks = some put_deposits
next_phase put_deposits = some put_withdraws
next_phase put_withdraws = some put_config
next_phase put_config = none
