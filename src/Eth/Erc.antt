-- ===== src/Eth/Erc.antt =====
-- `trx_store_erc` (eth_data_collector/collector_app.py): what is recorded for transfers of tokens,
-- and the tokens that are known (eth_data_collector/erc_conf.py).
pub mod Laws
use cross_chain_mid_ware.Base.{
  ℕ, ◌+◌, String, Bool, true, false, ◌&&◌, not, Option, none, some, List, [], ◌∷◌, ◌++◌, str_eq,
  ◌==◌, if◌then◌else◌,
}
use cross_chain_mid_ware.Base.Dict.{Dict, lookup}
use cross_chain_mid_ware.Base.Result.{Result, ok, err, type_error, ◌>>=◌}
use cross_chain_mid_ware.Base.Text.{show, lower, suffix, ◌<>◌}
use cross_chain_mid_ware.Base.Text.Hex.{int16, int10, show_hex}
use cross_chain_mid_ware.Eth.Amount.{turn_amount_from_eth}
use cross_chain_mid_ware.Eth.Node.{
  EthTrx, Log, Receipt, ErcTrx, Node, payment_topic, zero_word, datas,
}
use cross_chain_mid_ware.Eth.Rows.{
  Index, no_index, number_index, text_index, Row, Db, found, update, store, has_index, find_address,
  any_kind, contract, each,
}
use cross_chain_mid_ware.Eth.Store.{is_some}

pub record Asset : Type 0 where
  pub precison : String
  pub chain_id : String

abbrev pub erc_map : Dict Asset
erc_map =
    ("0xb99f8b924c272b51389c6322d05139eaed836938", record { precison = "14"; chain_id = "ERCDA" })
    ∷ (
      "0x8e870d67f660d95d5be530380d0ec0bd388289e1",
      record { precison = "18"; chain_id = "ERCPAX" },
    )
    ∷ (
      "0xbf2179859fc6d5bee9bf9158632dc51678a4100e",
      record { precison = "18"; chain_id = "ERCELF" },
    )
    ∷ (
      "0x3d66dede9f777a79f372d0cd8ae534a16b673d41",
      record { precison = "8"; chain_id = "ERCTITAN" },
    )
    ∷ (
      "0xdac17f958d2ee523a2206206994597c13d831ec7",
      record { precison = "6"; chain_id = "ERCUSDT" },
    )
    ∷ []

-- The text of an amount of a token.
unfoldable pub token_amount : String → Asset → Result String
unfolding turn_amount_from_eth show int16 int10
token_amount value asset =
    int16 value >>= λ v. int10 asset.precison >>= λ p. ok (turn_amount_from_eth (show v) p)

-- `hex(int(row["index"]))[2:]`
unfoldable pub hex_index : Index → Result Index
unfolding int10 show_hex
hex_index no_index = err type_error
hex_index (number_index n) = ok (text_index (show_hex n))
hex_index (text_index s) = int10 s >>= λ n. ok (text_index (show_hex n))

unfoldable pub erc_in : ErcTrx → Asset → Result Row
unfolding token_amount hex_index lower
erc_in x asset = token_amount x.value asset >>= λ amount.
    hex_index (number_index x.log_index) >>= λ index. ok (record {
      txid = x.txid;
      from_account = some x.from_addr;
      to_account = some x.to_addr;
      amount = amount;
      asset_symbol = asset.chain_id;
      block_num = x.block_number;
      chain_id = lower asset.chain_id;
      input = "0x";
      fee = "0";
      index = index;
      contract_address = none;
      call_contract = none;
      prefixhash = none;
    })

-- `erc_out` before its payment is found, with the input of the transaction.
unfoldable pub erc_out : ErcTrx → String → Row
erc_out x input = record {
  txid = x.txid;
  from_account = some x.from_addr;
  to_account = some x.to_addr;
  amount = "";
  asset_symbol = "";
  block_num = x.block_number;
  chain_id = "";
  input = input;
  fee = "0";
  index = number_index x.log_index;
  contract_address = none;
  call_contract = some "0x";
  prefixhash = none;
}

-- A row is looked up and updated by its transaction, index and token.
abbrev pub store_erc : Row → List Row → List Row
store_erc row rows =
    let fits = has_index row.txid row.index row.asset_symbol in store fits fits row rows

-- The token that a log's words name; none for ETH, an unknown token, or another number of words.
unfoldable pub paid_asset : List String → Option Asset
unfolding lookup suffix
paid_asset (d0 ∷ d1 ∷ d2 ∷ d3 ∷ d4 ∷ []) =
    if str_eq d3 zero_word then none else lookup ("0x" <> suffix 24 d3) erc_map
paid_asset _ = none

-- `erc_out` filled in.
unfoldable pub fill_out : ErcTrx → Option String → Asset → Row → Result Row
unfolding token_amount hex_index lower
fill_out x called asset row = token_amount x.value asset >>= λ amount.
    hex_index row.index >>= λ index. ok (record row {
      chain_id = lower asset.chain_id;
      asset_symbol = asset.chain_id;
      amount = amount;
      call_contract = called;
      index = index;
    })

-- A payment read from a log is stored. The row is the same object throughout the loops, which go on
-- with it as it was filled in last.
unfoldable pub store_filled : Result Row → Row × Db → (Row × Db) × Bool
unfolding found update
store_filled (err raised) s = (s, false)
store_filled (ok filled) (row, db) = (
  (filled, record db { b_withdraw_transaction = store_erc filled db.b_withdraw_transaction }),
  true,
)

unfoldable pub store_paid : ErcTrx → Option String → Option Asset → Row × Db → (Row × Db) × Bool
unfolding fill_out store_filled
store_paid x called none s = (s, true)
store_paid x called (some asset) s = store_filled (fill_out x called asset s.0) s

-- One topic of a log, with the log's index.
unfoldable pub out_topic :
    ErcTrx → Option String → String → Result ℕ → String → Row × Db → (Row × Db) × Bool
unfolding datas paid_asset store_paid
out_topic x called text (err raised) topic s = (s, false)
out_topic x called text (ok topic_index) topic s =
    if str_eq topic payment_topic && (x.log_index + 1 == topic_index)
    then store_paid x called (paid_asset (datas text)) s
    else (s, true)

unfoldable pub out_topics :
    ErcTrx → Option String → Log → Option (List String) → Row × Db → (Row × Db) × Bool
unfolding out_topic each int16
out_topics x called log none s = (s, true)
out_topics x called log (some topics) s =
    each (out_topic x called log.data_text (int16 log.log_index)) topics s

unfoldable pub out_log : ErcTrx → Option String → Log → Row × Db → (Row × Db) × Bool
unfolding out_topics
out_log x called log s = out_topics x called log log.topics s

-- With the logs of the receipt; a receipt or logs that are not there raise.
unfoldable pub out_logs : ErcTrx → Option String → Option (List Log) → Row × Db → (Row × Db) × Bool
unfolding out_log each
out_logs x called none s = (s, false)
out_logs x called (some logs) s = each (out_log x called) logs s

unfoldable pub out_receipt :
    ErcTrx → Option String → Result (Option Receipt) → Row × Db → (Row × Db) × Bool
unfolding out_logs
out_receipt x called (err raised) s = (s, false)
out_receipt x called (ok none) s = (s, false)
out_receipt x called (ok (some receipt)) s = out_logs x called receipt.logs s

-- With the transaction that the transfer is part of.
unfoldable pub store_out : Node → ErcTrx → Result (Option EthTrx) → Db → Db × Bool
unfolding out_receipt erc_out find_address
store_out node x (err raised) db = (db, false)
store_out node x (ok none) db = (db, true)
store_out node x (ok (some source)) db =
    let guard = find_address any_kind source.to_addr db.b_eths_address in
    let state =
      out_receipt x source.to_addr (node.get_trx_receipt x.txid) (erc_out x source.input, db) in
    if not (str_eq source.input "0x") && is_some guard then (state.0.1, state.1) else (db, true)

unfoldable pub store_in : Result Row → Db → Db × Bool
unfolding found update
store_in (err raised) db = (db, false)
store_in (ok row) db =
    (record db { b_deposit_transaction = store_erc row db.b_deposit_transaction }, true)

-- A deposit to a multisig contract, of a known token; or else a payment of a multisig contract.
unfoldable pub store_by : Node → ErcTrx → Option Asset → Bool → Bool → Db → Db × Bool
unfolding erc_in store_in store_out
store_by node x (some asset) true from_multi db = store_in (erc_in x asset) db
store_by node x asset to_multi true db = store_out node x (node.get_trx x.txid) db
store_by node x asset to_multi from_multi db = (db, true)

-- One transfer.
unfoldable pub store_transfer : Node → ErcTrx → Db → Db × Bool
unfolding lookup find_address store_by
store_transfer node x db =
    store_by node x (lookup x.contract_address erc_map)
      (is_some (find_address contract (some x.to_addr) db.b_eths_address))
      (is_some (find_address contract (some x.from_addr) db.b_eths_address)) db

-- An exception ends the function.
unfoldable pub trx_store_erc : Node → Option (List ErcTrx) → Db → Db
unfolding store_transfer each
trx_store_erc node none db = db
trx_store_erc node (some xs) db = (each (store_transfer node) xs db).0
