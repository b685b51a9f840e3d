-- ===== src/Eth/Sync.antt =====
-- The loop of the collector of ETH (eth_data_collector/collector_app.py): a start cleans up
-- (`clear_last_garbage_data`), and rounds of blocks follow until the node's latest block is reached
-- (`do_collect_app`, `collect_data_cb`). An exception in `collect_data_cb` ends the blocks of the
-- round and not the round: `DeferredList`, of Twisted, hands on failures as values, which are not
-- looked at.
pub mod Laws
pub mod Progress
use cross_chain_mid_ware.Base.{
  ℕ, zero, suc, ◌+◌, ◌-◌, String, Bool, true, false, ◌&&◌, not, Option, none, some, List, [], ◌∷◌,
  str_eq, leb, ◌==◌, if◌then◌else◌,
}
use cross_chain_mid_ware.Base.Result.{Result, ok, err, type_error, ◌>>=◌}
use cross_chain_mid_ware.Eth.Node.{EthTrx, ErcTrx, Node}
use cross_chain_mid_ware.Eth.Rows.{Row, RawRow, Db, each}
use cross_chain_mid_ware.Eth.Store.{trx_store_eth}
use cross_chain_mid_ware.Eth.Erc.{trx_store_erc}

-- `remove({"blockNum": {"$gte": n}, "chainId": "eth"})`
unfoldable pub remove_rows : ℕ → List Row → List Row
remove_rows n [] = []
remove_rows n (r ∷ rs) =
    let rest = remove_rows n rs in
    if str_eq r.chain_id "eth" && leb n r.block_num then rest else r ∷ rest

unfoldable pub remove_raw : ℕ → List RawRow → List RawRow
remove_raw n [] = []
remove_raw n (r ∷ rs) =
    let rest = remove_raw n rs in
    if str_eq r.chain_id "eth" && leb n r.block_num then rest else r ∷ rest

-- The database cleaned up, and the block to start from: the one after the saved one.
unfoldable pub clear_last_garbage_data : Db → Db × ℕ
unfolding remove_rows remove_raw
clear_last_garbage_data db =
    let saved : ℕ = elim db.syncblocknum [ none ↦ 0 | some n ↦ n ] in
    let n : ℕ = elim db.syncblocknum [ none ↦ 0 | some m ↦ m + 1 ] in
    (
      record db {
        syncblocknum = some saved;
        b_raw_transaction = remove_raw n db.b_raw_transaction;
        b_block = remove_raw n db.b_block;
        b_raw_transaction_input = remove_raw n db.b_raw_transaction_input;
        b_raw_transaction_output = remove_raw n db.b_raw_transaction_output;
        b_deposit_transaction = remove_rows n db.b_deposit_transaction;
        b_withdraw_transaction = remove_rows n db.b_withdraw_transaction;
      },
      n,
    )

abbrev ids_of : Option (List String) → List String
ids_of none = []
ids_of (some ids) = ids

-- The ids of a block's transactions and token transfers. It returns none after an exception, which
-- its caller cannot unpack.
unfoldable pub collect_block : Node → ℕ → Result (List String × List String)
collect_block node n = elim (node.get_normal_history n) [
  | err raised ↦ err type_error
  | ok trx_ids ↦ elim (node.get_erc20_history n) [
    | err raised ↦ err type_error
    | ok erc_ids ↦ ok (ids_of trx_ids, ids_of erc_ids)
  ]
]

unfoldable pub store_trx : Node → Result (Option EthTrx) → Db → Db × Bool
unfolding trx_store_eth
store_trx node (err raised) db = (db, false)
store_trx node (ok x) db = (trx_store_eth node x db, true)

unfoldable pub store_erc_trxs : Node → Result (Option (List ErcTrx)) → Db → Db × Bool
unfolding trx_store_erc
store_erc_trxs node (err raised) db = (db, false)
store_erc_trxs node (ok xs) db = (trx_store_erc node xs db, true)

-- An exception ends the function.
unfoldable pub eth_trx_store : Node → List String → List String → Db → Db
unfolding each store_trx store_erc_trxs
eth_trx_store node ids erc_ids db =
    let stored = each (λ id. store_trx node (node.get_trx id)) ids db in
    if stored.1
    then (each (λ id. store_erc_trxs node (node.get_erc20_trx id)) erc_ids stored.0).0
    else stored.0

-- The rest of a round: `count` blocks from `n` on.
unfoldable pub collect_data_cb : Node → ℕ → ℕ → Db → Db
unfolding collect_block eth_trx_store
collect_data_cb node zero n db = db
collect_data_cb node (suc count) n db = elim (collect_block node n) [
  | err raised ↦ db
  | ok (ids, erc_ids) ↦ collect_data_cb node count (n + 1) (eth_trx_store node ids erc_ids db)
]

abbrev pub sync_block_per_round : ℕ
sync_block_per_round = 1000

-- The blocks of the next round.
pub record Round : Type 0 where
  pub sync_start : ℕ
  pub sync_end : ℕ

unfoldable pub next_round : ℕ → ℕ → Round
next_round latest last =
    if leb latest last then record { sync_start = latest; sync_end = latest } else record {
      sync_start = last;
      sync_end =
          if leb latest (last + sync_block_per_round) then latest else last + sync_block_per_round;
    }

-- The state of the collector: its database, and `GlobalVariable.last_sync_block_num`.
pub record State : Type 0 where
  pub db : Db
  pub last_sync_block_num : ℕ

-- `config.update` of the saved number changes an entry that is there.
abbrev pub save : ℕ → Option ℕ → Option ℕ
save n none = none
save n (some old) = some n

-- The blocks of a round, and the number that is saved after it.
unfoldable pub run_round : Node → Round → State → State
unfolding collect_data_cb
run_round node r s =
    let stored = collect_data_cb node (r.sync_end + 1 - r.sync_start) r.sync_start s.db in
    record {
      db = record stored { syncblocknum = save r.sync_end stored.syncblocknum };
      last_sync_block_num = r.sync_end;
    }

pub data Outcome : Type 0 where
  in_sync failed out_of_fuel : Outcome

-- The inner loop. `node k` is the node as it is in round `k`.
unfoldable pub sync : ℕ → (ℕ → Node) → ℕ → State → State × Outcome
unfolding next_round run_round
sync zero node k s = (s, out_of_fuel)
sync (suc fuel) node k s = elim ((node k).get_block_height) [
  | err e ↦ (s, failed)
  | ok latest ↦
      let r = next_round latest s.last_sync_block_num in
      elim (r.sync_start == latest) [
        | true ↦ (s, in_sync)
        | false ↦ sync fuel node (k + 1) (run_round (node k) r s)
      ]
]

-- A start, up to the first round.
unfoldable pub boot : Db → State
unfolding clear_last_garbage_data
boot db =
    let (cleared, n) = clear_last_garbage_data db in
    record { db = cleared; last_sync_block_num = n }
