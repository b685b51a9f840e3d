-- ===== src/Eth/Tests.antt =====
-- Runs of the collector of ETH (eth_data_collector/collector_app.py), and the theorems about it
-- applied to them.
use cross_chain_mid_ware.Base.{
  ℕ, ◌≡◌, ◌≢◌, ◌≤◌, refl, String, true, false, Option, none, some, List, [], ◌∷◌, ◌++◌, map, str_eq,
  ◌==◌, if◌then◌else◌, arith,
}
use cross_chain_mid_ware.Base.Result.{Result, ok, err, value_error, type_error, ok-injective}
use cross_chain_mid_ware.Base.Dict.{lookup}
use cross_chain_mid_ware.Base.Text.{show}
use cross_chain_mid_ware.Base.Text.Hex.{int16, show_hex}
use cross_chain_mid_ware.Base.Text.Decimal.{read_units}
use cross_chain_mid_ware.Eth.Amount.{turn_amount_from_eth}
use cross_chain_mid_ware.Eth.Amount.RoundTrip.{turn_amount_from_eth-reads}
use cross_chain_mid_ware.Eth.Node.{EthTrx, Log, Receipt, ErcTrx, Node, payment_topic}
use cross_chain_mid_ware.Eth.Rows.{Row, Db, AddressRow, find_address, number_index}
use cross_chain_mid_ware.Eth.Store.{TrxData, trx_data, trx_store_eth}
use cross_chain_mid_ware.Eth.Store.Payments.{payments, log_texts, trx_store_eth-payments}
use cross_chain_mid_ware.Eth.Store.Once.{trx_store_eth-again}
use cross_chain_mid_ware.Eth.Erc.{store_transfer}
use cross_chain_mid_ware.Eth.Erc.Laws.{store_transfer-again}
use cross_chain_mid_ware.Eth.Sync.{
  run_round, sync, in_sync, out_of_fuel, collect_block, collect_data_cb, save, boot,
}
use cross_chain_mid_ware.Eth.Sync.Laws.{sync-ends, run_round-failed}
use cross_chain_mid_ware.Eth.Sync.Progress.{sync-catches_up}

half : turn_amount_from_eth "1500" 3 ≡ "1.5"
unfolding turn_amount_from_eth
half = refl

tiny : turn_amount_from_eth "70" 4 ≡ "0.007"
unfolding turn_amount_from_eth
tiny = refl

whole : turn_amount_from_eth "7000" 3 ≡ "7"
unfolding turn_amount_from_eth
whole = refl

hex_read : int16 "0x1F" ≡ ok 31
unfolding int16
hex_read = refl

hex_shown : show_hex 31 ≡ "1f"
unfolding show_hex
hex_shown = refl

turn_amount_from_eth-reads_example :
    read_units 18 (turn_amount_from_eth (show 1200000000) 18) ≡ some 1200000000
turn_amount_from_eth-reads_example = turn_amount_from_eth-reads 1200000000 18

-- A payment to the multisig contract "0xm".
abbrev payment : EthTrx
payment = record {
  hash = "0xa";
  block_number = "0x10";
  input = "0x";
  from_addr = "0xu";
  to_addr = some "0xm";
  value = "0xde0b6b3a7640000";
  gas = "0x5208";
  gas_price = "0x1";
}

-- A call of it by the guard "0xg", which pays out.
abbrev call : EthTrx
call = record payment { hash = "0xb"; input = "0x1234"; from_addr = "0xg"; value = "0x0" }

abbrev pay_data : String
pay_data =
    "0x11111111111111111111111111111111111111111111111111111111111111110000000000000000000000003a0e5bfe60b1f4c3d5a5c0c2a3a1b0c9d8e7f6a50000000000000000000000000000000000000000000000000de0b6b3a764000000000000000000000000000000000000000000000000000000000000000000000000000000000000000000000000000000000000000000000000000000000007"

abbrev pay_log : Log
pay_log = record { topics = some (payment_topic ∷ []); data_text = pay_data; log_index = "0x2" }

abbrev paid : Receipt
paid = record { contract_address = none; logs = some (pay_log ∷ []) }

abbrev token : ErcTrx
token = record {
  txid = "0xc";
  from_addr = "0xu";
  to_addr = "0xm";
  contract_address = "0xdac17f958d2ee523a2206206994597c13d831ec7";
  value = "0x4c4b40";
  block_number = 17;
  log_index = 26;
}

-- Its block 18 cannot be read.
abbrev node : Node
node = record {
  get_block_height = ok 20;
  get_normal_history = history;
  get_erc20_history = tokens;
  get_trx = transaction;
  get_trx_receipt = λ id. ok (some paid);
  get_erc20_trx = λ id. ok (some (token ∷ []));
}
  where
    history : ℕ → Result (Option (List String))
    history n =
        if n == 16
        then ok (some ("0xa" ∷ "0xb" ∷ []))
        else if n == 18
        then err value_error
        else ok none

    tokens : ℕ → Result (Option (List String))
    tokens n = if n == 17 then ok (some ("0xc" ∷ [])) else ok none

    transaction : String → Result (Option EthTrx)
    transaction id =
        ok (if str_eq id "0xa" then some payment else if str_eq id "0xb" then some call else none)

abbrev multisig : AddressRow
multisig = record { address = "0xm"; is_contract_address = true; chain_id = "ETH" }

abbrev guard : AddressRow
guard = record { address = "0xg"; is_contract_address = false; chain_id = "ETH" }

abbrev empty : Db
empty = record {
  syncblocknum = some 14;
  b_eths_address = multisig ∷ guard ∷ [];
  b_deposit_transaction = [];
  b_withdraw_transaction = [];
  b_guardcall_transaction = [];
  b_block = [];
  b_raw_transaction = [];
  b_raw_transaction_input = [];
  b_raw_transaction_output = [];
}

-- What a round from block 16 on leaves, block 18 aside.
abbrev after : Db
after = (run_round node (record { sync_start = 16; sync_end = 17 }) (boot empty)).db

deposits : map (λ (r : Row). r.amount) after.b_deposit_transaction ≡ "1" ∷ "5" ∷ []
unfolding run_round boot
deposits = refl

withdrawals : map (λ (r : Row). r.index) after.b_withdraw_transaction ≡ number_index 7 ∷ []
unfolding run_round boot
withdrawals = refl

abbrev call_data : TrxData
call_data = record {
  trx_id = "0xb";
  block_num = 16;
  input = "0x1234";
  from_address = "0xg";
  to_address = some "0xm";
  amount = "0.000000000000000000";
  trx_fee = "0.000000000000021";
}

call_read : trx_data call ≡ ok call_data
unfolding trx_data
call_read = refl

trx_store_eth-payments_example :
    (trx_store_eth node (some call) after).b_withdraw_transaction
    ≡ after.b_withdraw_transaction ++ payments call_data (log_texts (pay_log ∷ []))
unfolding run_round boot
trx_store_eth-payments_example =
    trx_store_eth-payments node call call_data guard paid pay_log [] after tt call_read refl
      (unfold find_address in refl) refl refl

trx_store_eth-again_example :
    trx_store_eth node (some payment) (trx_store_eth node (some payment) empty)
    ≡ trx_store_eth node (some payment) empty
trx_store_eth-again_example = trx_store_eth-again node payment empty refl tt

store_transfer-again_example :
    store_transfer node token (store_transfer node token empty).0 ≡ store_transfer node token empty
store_transfer-again_example =
    store_transfer-again node token (record { precison = "6"; chain_id = "ERCUSDT" }) empty
      (unfold lookup in refl) (unfold find_address in refl)

same_height : (k n : ℕ) → ok 20 ≡ ok n → n ≤ 20
same_height k n e = omega (arith, ok-injective e)

sync-ends_example : (sync 7 (λ k. node) 0 (boot empty)).1 ≢ out_of_fuel
sync-ends_example =
    sync-ends (λ k. node) 20 same_height 7 0 (boot empty) (unfold boot in omega arith) (omega arith)

sync-catches_up_example :
    let result = sync 7 (λ k. node) 0 (boot empty) in
    (result.1 ≡ in_sync)
    × (result.0.last_sync_block_num ≡ 20)
    × (result.0.db.syncblocknum ≡ some 20)
sync-catches_up_example =
    sync-catches_up (λ k. node) 20 (λ k. refl) 7 0 14 (boot empty) (unfold boot in omega arith)
      (unfold boot in omega arith) (unfold boot in refl)

unread : collect_block node 18 ≡ err type_error
unfolding collect_block
unread = refl

run_round-failed_example :
    let stored = collect_data_cb node 2 16 empty in
    run_round node
      (record { sync_start = 16; sync_end = 20 })
      (record { db = empty; last_sync_block_num = 16 })
    ≡ record {
      db = record stored { syncblocknum = save 20 stored.syncblocknum };
      last_sync_block_num = 20;
    }
run_round-failed_example =
    run_round-failed node (record { sync_start = 16; sync_end = 20 }) 18 type_error
      (record { db = empty; last_sync_block_num = 16 }) (omega arith) (omega arith) unread
