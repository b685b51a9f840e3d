-- ===== src/Eth/Store.antt =====
-- `trx_store_eth` (eth_data_collector/collector_app.py): what is recorded for a transaction of ETH.
-- A payment to a multisig contract is a deposit; a call by a guard without logs makes a contract;
-- in a call with logs each payment of ETH that the contract logs is a withdrawal. Exceptions end
-- the function, and leave what was written.
pub mod Laws
pub mod Payments
pub mod Once
use cross_chain_mid_ware.Base.{
  ℕ, ◌*◌, String, Bool, true, false, ◌&&◌, not, Option, none, some, List, [], ◌∷◌, ◌++◌, str_eq,
  if◌then◌else◌,
}
use cross_chain_mid_ware.Base.Result.{Result, ok, err, ◌>>=◌}
use cross_chain_mid_ware.Base.Text.{show, lower, suffix, ◌<>◌}
use cross_chain_mid_ware.Base.Text.Hex.{int16}
use cross_chain_mid_ware.Eth.Amount.{turn_amount_from_eth}
use cross_chain_mid_ware.Eth.Node.{EthTrx, Log, Receipt, Node, payment_topic, zero_word, datas}
use cross_chain_mid_ware.Eth.Rows.{
  Index, no_index, number_index, Row, Db, AddressRow, found, update, store, has_txid, has_chain,
  has_index, find_address, contract, personal, each,
}

-- `trx_data`
pub record TrxData : Type 0 where
  pub trx_id : String
  pub block_num : ℕ
  pub input : String
  pub from_address : String
  pub to_address : Option String
  pub amount : String
  pub trx_fee : String

-- A number of wei, as a text.
abbrev wei : ℕ → String
wei n = turn_amount_from_eth (show n) 18

unfoldable pub trx_data : EthTrx → Result TrxData
unfolding turn_amount_from_eth show int16
trx_data x = int16 x.block_number >>= λ block_num. int16 x.value >>= λ value. int16 x.gas >>= λ gas.
    int16 x.gas_price >>= λ gas_price. ok (record {
      trx_id = x.hash;
      block_num = block_num;
      input = x.input;
      from_address = x.from_addr;
      to_address = x.to_addr;
      amount = wei value;
      trx_fee = wei (gas * gas_price);
    })

unfoldable pub deposit : TrxData → Row
unfolding lower
deposit t = record {
  txid = t.trx_id;
  from_account = some t.from_address;
  to_account = t.to_address;
  amount = t.amount;
  asset_symbol = "eth";
  block_num = t.block_num;
  chain_id = lower "eth";
  input = t.input;
  fee = t.trx_fee;
  index = no_index;
  contract_address = none;
  call_contract = none;
  prefixhash = none;
}

-- A guard's transaction that makes a contract.
unfoldable pub guardcall : AddressRow → Receipt → TrxData → Row
unfolding deposit lower
guardcall guard receipt t = record (deposit t) {
  asset_symbol = guard.chain_id;
  chain_id = lower guard.chain_id;
  contract_address = receipt.contract_address;
}

-- The row of a payment of ETH, from its words.
unfoldable pub eth_row : TrxData → String → String → ℕ → ℕ → Row
unfolding deposit turn_amount_from_eth show suffix
eth_row t d0 d1 value index = record (deposit t) {
  from_account = t.to_address;
  to_account = some ("0x" <> suffix 24 d1);
  call_contract = t.to_address;
  prefixhash = some d0;
  amount = wei value;
  index = number_index index;
}

-- The withdrawal that a log's words tell of: none for a token, or for another number of words.
unfoldable pub eth_withdraw : TrxData → List String → Result (Option Row)
unfolding eth_row int16
eth_withdraw t (d0 ∷ d1 ∷ d2 ∷ d3 ∷ d4 ∷ []) =
    if str_eq d3 zero_word
    then (int16 d2 >>= λ value. int16 d4 >>= λ index. ok (some (eth_row t d0 d1 value index)))
    else ok none
eth_withdraw t _ = ok none

-- A withdrawal is looked up in the collection of the guards' calls.
unfoldable pub store_withdraw : Row → Db → Db
unfolding found update
store_withdraw row db = record db {
  b_withdraw_transaction =
      let fits = has_index row.txid row.index row.asset_symbol in
      if found fits db.b_guardcall_transaction
      then update fits row db.b_withdraw_transaction
      else db.b_withdraw_transaction ++ row ∷ [];
}

unfoldable pub store_payment : Result (Option Row) → Db → Db × Bool
unfolding store_withdraw
store_payment (err raised) db = (db, false)
store_payment (ok none) db = (db, true)
store_payment (ok (some row)) db = (store_withdraw row db, true)

unfoldable pub store_topic : TrxData → String → String → Db → Db × Bool
unfolding eth_withdraw store_payment datas
store_topic t text topic db =
    if str_eq topic payment_topic
    then store_payment (eth_withdraw t (datas text)) db
    else (db, true)

unfoldable pub store_topics : TrxData → String → Option (List String) → Db → Db × Bool
unfolding store_topic each
store_topics t text none db = (db, true)
store_topics t text (some topics) db = each (store_topic t text) topics db

unfoldable pub store_log : TrxData → Log → Db → Db × Bool
unfolding store_topics
store_log t log db = store_topics t log.data_text log.topics db

-- With the logs of a guard's call.
unfoldable pub store_logs : Row → TrxData → Option (List Log) → Db → Db
unfolding store_log each store
store_logs row t none db = db
store_logs row t (some []) db = record db {
  b_guardcall_transaction =
      store (has_txid t.trx_id) (has_txid t.trx_id) row db.b_guardcall_transaction;
}
store_logs row t (some (log ∷ logs)) db = (each (store_log t) (log ∷ logs) db).0

unfoldable pub store_deposit : TrxData → Db → Db
unfolding deposit store lower
store_deposit t db = record db {
  b_deposit_transaction =
      store (has_chain t.trx_id (lower "eth")) (has_txid t.trx_id) (deposit t)
        db.b_deposit_transaction;
}

unfoldable pub store_call : AddressRow → TrxData → Result (Option Receipt) → Db → Db
unfolding guardcall store_logs
store_call guard t (err raised) db = db
store_call guard t (ok none) db = db
store_call guard t (ok (some receipt)) db = store_logs (guardcall guard receipt t) t receipt.logs db

unfoldable pub store_guard : Node → TrxData → Option AddressRow → Db → Db
unfolding store_call
store_guard node t none db = db
store_guard node t (some guard) db =
    if str_eq t.input "0x" then db else store_call guard t (node.get_trx_receipt t.trx_id) db

abbrev pub is_some : {A : Type 0} → Option A → Bool
is_some none = false
is_some (some a) = true

unfoldable pub store_data : Node → Result TrxData → Db → Db
unfolding store_deposit store_guard find_address
store_data node (err raised) db = db
store_data node (ok t) db =
    if is_some (find_address contract t.to_address db.b_eths_address) && str_eq t.input "0x"
    then store_deposit t db
    else store_guard node t (find_address personal (some t.from_address) db.b_eths_address) db

unfoldable pub trx_store_eth : Node → Option EthTrx → Db → Db
unfolding trx_data store_data
trx_store_eth node none db = db
trx_store_eth node (some x) db = store_data node (trx_data x) db
