-- ===== src/Eth/Erc/Laws.antt =====
-- What transfers of tokens leave in the database.
use cross_chain_mid_ware.Base.{
  ℕ, ◌+◌, ◌≡◌, refl, ap, ◌∙◌, sym, String, Bool, true, false, ◌&&◌, not, Option, none, some, List,
  str_eq, eq_refl, Bool-cases, inl, inr, ◌==◌,
}
use cross_chain_mid_ware.Base.Dict.{lookup}
use cross_chain_mid_ware.Base.Text.Hex.{int16}
use cross_chain_mid_ware.Base.Result.{Result, ok, err, >>=-eq-ok, ok-injective}
use cross_chain_mid_ware.Eth.Node.{EthTrx, ErcTrx, Log, Receipt, Node, payment_topic, datas}
use cross_chain_mid_ware.Eth.Rows.{
  text_index, Row, Db, set_row, find_address, contract, any_kind, has_index,
}
use cross_chain_mid_ware.Eth.Rows.Laws.{Keeps, store_again, each_inv}
use cross_chain_mid_ware.Eth.Store.{is_some}
use cross_chain_mid_ware.Eth.Store.Laws.{IsKept}
use cross_chain_mid_ware.Eth.Erc.{
  Asset, erc_map, erc_in, erc_out, token_amount, hex_index, paid_asset, store_filled, store_paid,
  out_topic, out_topics, out_log, out_logs, out_receipt, store_out, store_in, store_by,
  store_transfer, trx_store_erc, fill_out,
}

module _ (P : Db → Type 0) (kept : IsKept P) where
  store_paid-IsKept :
      (x : ErcTrx) (called : Option String) (asset : Option Asset) (s : Row × Db)
      → P s.1
      → P (store_paid x called asset s).0.1
  unfolding store_paid
  store_paid-IsKept x called none s h = h
  store_paid-IsKept x called (some asset) s h = filled (fill_out x called asset s.0)
    where
      filled : (r : Result Row) → P (store_filled r s).0.1
      filled (err raised) = h
      filled (ok row) = kept.withdraws s.1 _ h

  out_topic-IsKept :
      (x : ErcTrx) (called : Option String) (text : String) (i : Result ℕ) (topic : String)
      (s : Row × Db)
      → P s.1
      → P (out_topic x called text i topic s).0.1
  unfolding out_topic
  out_topic-IsKept x called text (err raised) topic s h = h
  out_topic-IsKept x called text (ok i) topic s h =
      elim (Bool-cases (str_eq topic payment_topic && (x.log_index + 1 == i))) [
        | inl e ↦ rw e (store_paid-IsKept x called (paid_asset (datas text)) s h)
        | inr e ↦ rw e h
      ]

  out_topics-IsKept :
      (x : ErcTrx) (called : Option String) (log : Log) (topics : Option (List String))
      (s : Row × Db)
      → P s.1
      → P (out_topics x called log topics s).0.1
  unfolding out_topics
  out_topics-IsKept x called log none s h = h
  out_topics-IsKept x called log (some topics) s h =
      each_inv (λ z. P z.1) (out_topic x called log.data_text (int16 log.log_index))
        (out_topic-IsKept x called log.data_text (int16 log.log_index)) topics s h

  out_receipt-IsKept :
      (x : ErcTrx) (called : Option String) (receipt : Result (Option Receipt)) (s : Row × Db)
      → P s.1
      → P (out_receipt x called receipt s).0.1
  unfolding out_receipt
  out_receipt-IsKept x called (err raised) s h = h
  out_receipt-IsKept x called (ok none) s h = h
  out_receipt-IsKept x called (ok (some receipt)) s h = logs receipt.logs
    where
      logs : (ls : Option (List Log)) → P (out_logs x called ls s).0.1
      logs none = h
      logs (some ls) =
          each_inv (λ z. P z.1) (out_log x called) (λ l. out_topics-IsKept x called l l.topics) ls s
            h

  store_out-IsKept :
      (node : Node) (x : ErcTrx) (source : Result (Option EthTrx)) (db : Db)
      → P db
      → P (store_out node x source db).0
  unfolding store_out
  store_out-IsKept node x (err raised) db h = h
  store_out-IsKept node x (ok none) db h = h
  store_out-IsKept node x (ok (some source)) db h =
      elim (Bool-cases (
        not (str_eq source.input "0x")
        && is_some (find_address any_kind source.to_addr db.b_eths_address))) [
          | inl e ↦ rw e (
              out_receipt-IsKept x source.to_addr (node.get_trx_receipt x.txid)
                (erc_out x source.input, db) h)
          | inr e ↦ rw e h
        ]

  store_by-IsKept :
      (node : Node) (x : ErcTrx) (asset : Option Asset) (to_multi from_multi : Bool) (db : Db)
      → P db
      → P (store_by node x asset to_multi from_multi db).0
  unfolding store_by
  store_by-IsKept node x (some asset) true from_multi db h = deposited (erc_in x asset)
    where
      deposited : (r : Result Row) → P (store_in r db).0
      deposited (err raised) = h
      deposited (ok row) = kept.deposits db _ h
  store_by-IsKept node x none to_multi true db h =
      store_out-IsKept node x (node.get_trx x.txid) db h
  store_by-IsKept node x none to_multi false db h = h
  store_by-IsKept node x (some asset) false true db h =
      store_out-IsKept node x (node.get_trx x.txid) db h
  store_by-IsKept node x (some asset) false false db h = h

  pub trx_store_erc-IsKept :
      (node : Node) (xs : Option (List ErcTrx)) (db : Db) → P db → P (trx_store_erc node xs db)
  unfolding trx_store_erc store_transfer
  trx_store_erc-IsKept node none db h = h
  trx_store_erc-IsKept node (some xs) db h =
      each_inv P (store_transfer node) (λ x now. store_by-IsKept node x _ _ _ now) xs db h

erc_in-IsText :
    (x : ErcTrx) (asset : Asset) (row : Row)
    → erc_in x asset ≡ ok row
    → (s : String) × (row.index ≡ text_index s)
unfolding erc_in hex_index
erc_in-IsText x asset row h =
    let (amount, _, h2) = >>=-eq-ok (token_amount x.value asset) _ h in
    (_, sym (ap (λ (r : Row). r.index) (ok-injective h2)))

has_index-Keeps :
    (row : Row) (s : String)
    → row.index ≡ text_index s
    → Keeps (has_index row.txid row.index row.asset_symbol) row
unfolding set_row
has_index-Keeps row s h = rw h (simp eq_refl, λ r _. simp eq_refl)

-- With what is read, the deposit is stored.
stores_in :
    (node : Node) (x : ErcTrx) (asset : Asset) (db : Db)
    → lookup x.contract_address erc_map ≡ some asset
    → is_some (find_address contract (some x.to_addr) db.b_eths_address) ≡ true
    → store_transfer node x db ≡ store_in (erc_in x asset) db
unfolding store_transfer store_by
stores_in node x asset db known multi =
    let to_multi = is_some (find_address contract (some x.to_addr) db.b_eths_address) in
    let from_multi = is_some (find_address contract (some x.from_addr) db.b_eths_address) in
    ap (λ a. store_by node x a to_multi from_multi db) known
    ∙ ap (λ m. store_by node x (some asset) m from_multi db) multi

store_in-again :
    (r : Result Row) (db : Db)
    → ((row : Row) → r ≡ ok row → (s : String) × (row.index ≡ text_index s))
    → (store_in r (store_in r db).0 ≡ store_in r db)
      × ((store_in r db).0.b_eths_address ≡ db.b_eths_address)
unfolding store_in
store_in-again (err raised) db h = (refl, refl)
store_in-again (ok row) db h =
    let (s, e) = h row refl in
    (
      ap (λ rows. (record db { b_deposit_transaction = rows }, true))
          (store_again _ row db.b_deposit_transaction (has_index-Keeps row s e)),
      refl,
    )

-- A deposit of a known token that is recorded a second time leaves the database as the first time
-- left it.
pub store_transfer-again :
    (node : Node) (x : ErcTrx) (asset : Asset) (db : Db)
    → lookup x.contract_address erc_map ≡ some asset
    → is_some (find_address contract (some x.to_addr) db.b_eths_address) ≡ true
    → store_transfer node x (store_transfer node x db).0 ≡ store_transfer node x db
store_transfer-again node x asset db known multi =
    let first = stores_in node x asset db known multi in
    let (again, same) = store_in-again (erc_in x asset) db (erc_in-IsText x asset) in
    let multi' : is_some
          (find_address contract (some x.to_addr) (store_in (erc_in x asset) db).0.b_eths_address)
        ≡ true =
      rw same multi in
    rw (first) (stores_in node x asset (store_in (erc_in x asset) db).0 known multi' ∙ again)
