-- ===== src/Eth/Store/Laws.antt =====
-- What a transaction of ETH leaves in the database.
use cross_chain_mid_ware.Base.{
  String, ◌&&◌, Option, none, some, List, [], ◌∷◌, str_eq, Bool-cases, inl, inr,
}
use cross_chain_mid_ware.Base.Result.{Result, ok, err}
use cross_chain_mid_ware.Eth.Node.{EthTrx, Log, Receipt, Node, payment_topic, datas}
use cross_chain_mid_ware.Eth.Rows.{Row, Db, AddressRow, store, has_txid, find_address, contract}
use cross_chain_mid_ware.Eth.Rows.Laws.{each_inv}
use cross_chain_mid_ware.Eth.Store.{
  TrxData, trx_data, guardcall, eth_withdraw, store_withdraw, store_topic, store_log, store_call,
  store_deposit, store_guard, trx_store_eth, store_payment, store_topics, store_logs, store_data,
  is_some,
}

-- A property of databases that the three writes keep.
pub record IsKept (P : Db → Type 0) : Type 0 where
  pub deposits : (db : Db) (rows : List Row) → P db → P (record db { b_deposit_transaction = rows })
  pub withdraws :
      (db : Db) (rows : List Row) → P db → P (record db { b_withdraw_transaction = rows })
  pub guard_calls :
      (db : Db) (guard : AddressRow) (receipt : Receipt) (t : TrxData)
      → P db
      → P (record db {
        b_guardcall_transaction =
            store
              (has_txid t.trx_id)
              (has_txid t.trx_id)
              (guardcall guard receipt t)
              db.b_guardcall_transaction;
      })

module _ (P : Db → Type 0) (kept : IsKept P) where
  store_payment-IsKept : (row : Result (Option Row)) (db : Db) → P db → P (store_payment row db).0
  unfolding store_payment store_withdraw
  store_payment-IsKept (err raised) db h = h
  store_payment-IsKept (ok none) db h = h
  store_payment-IsKept (ok (some row)) db h = kept.withdraws db _ h

  store_topic-IsKept :
      (t : TrxData) (text topic : String) (db : Db) → P db → P (store_topic t text topic db).0
  unfolding store_topic
  store_topic-IsKept t text topic db h = elim (Bool-cases (str_eq topic payment_topic)) [
    | inl e ↦ rw e (store_payment-IsKept (eth_withdraw t (datas text)) db h)
    | inr e ↦ rw e h
  ]

  store_topics-IsKept :
      (t : TrxData) (text : String) (topics : Option (List String)) (db : Db)
      → P db
      → P (store_topics t text topics db).0
  unfolding store_topics
  store_topics-IsKept t text none db h = h
  store_topics-IsKept t text (some topics) db h =
      each_inv P (store_topic t text) (store_topic-IsKept t text) topics db h

  store_logs-IsKept :
      (guard : AddressRow) (receipt : Receipt) (t : TrxData) (logs : Option (List Log)) (db : Db)
      → P db
      → P (store_logs (guardcall guard receipt t) t logs db)
  unfolding store_logs store_log
  store_logs-IsKept guard receipt t none db h = h
  store_logs-IsKept guard receipt t (some []) db h = kept.guard_calls db guard receipt t h
  store_logs-IsKept guard receipt t (some (log ∷ logs)) db h =
      each_inv P (store_log t) (λ l. store_topics-IsKept t l.data_text l.topics) (log ∷ logs) db h

  store_guard-IsKept :
      (node : Node) (t : TrxData) (guard : Option AddressRow) (db : Db)
      → P db
      → P (store_guard node t guard db)
  unfolding store_guard
  store_guard-IsKept node t none db h = h
  store_guard-IsKept node t (some guard) db h = elim (Bool-cases (str_eq t.input "0x")) [
    | inl e ↦ rw e h
    | inr e ↦ rw e (call (node.get_trx_receipt t.trx_id))
  ]
    where
      call : (r : Result (Option Receipt)) → P (store_call guard t r db)
      call (err raised) = h
      call (ok none) = h
      call (ok (some receipt)) = store_logs-IsKept guard receipt t receipt.logs db h

  store_data-IsKept : (node : Node) (t : Result TrxData) (db : Db) → P db → P (store_data node t db)
  unfolding store_data store_deposit
  store_data-IsKept node (err raised) db h = h
  store_data-IsKept node (ok t) db h =
      elim (Bool-cases
        (is_some (find_address contract t.to_address db.b_eths_address) && str_eq t.input "0x")) [
          | inl e ↦ rw e (kept.deposits db _ h)
          | inr e ↦ rw e (store_guard-IsKept node t _ db h)
        ]

  pub trx_store_eth-IsKept :
      (node : Node) (x : Option EthTrx) (db : Db) → P db → P (trx_store_eth node x db)
  unfolding trx_store_eth
  trx_store_eth-IsKept node none db h = h
  trx_store_eth-IsKept node (some x) db h = store_data-IsKept node (trx_data x) db h
