-- ===== src/Eth/Store/Once.antt =====
-- A deposit of ETH that is recorded again.
use mathlib.Core.Path.{subst}
use cross_chain_mid_ware.Base.{
  ◌≡◌, refl, ap, ◌∙◌, true, Option, none, some, str_eq, eq_refl, arith, Bool-cases, inl, inr,
}
use cross_chain_mid_ware.Base.Result.{Result, ok, err, >>=-eq-ok, ok-injective}
use cross_chain_mid_ware.Base.Text.Hex.{int16}
use cross_chain_mid_ware.Base.Text.{lower}
use cross_chain_mid_ware.Eth.Node.{EthTrx, Node}
use cross_chain_mid_ware.Eth.Rows.{
  Row, Db, AddressRow, set_row, has_txid, has_chain, find_address, contract, personal,
}
use cross_chain_mid_ware.Eth.Rows.Laws.{Implies, store_again_seen}
use cross_chain_mid_ware.Eth.Store.{
  TrxData, trx_data, deposit, store_deposit, store_guard, store_data, trx_store_eth, is_some,
}

store_deposit-again :
    (t : TrxData) (db : Db)
    → Implies (has_txid t.trx_id) (has_chain t.trx_id (lower "eth")) db.b_deposit_transaction
    → store_deposit t (store_deposit t db) ≡ store_deposit t db
unfolding store_deposit deposit set_row
store_deposit-again t db h =
    ap (λ rows. record db { b_deposit_transaction = rows })
      (store_again_seen (has_chain t.trx_id (lower "eth")) (has_txid t.trx_id) (deposit t)
        db.b_deposit_transaction (simp eq_refl, λ r _. simp eq_refl) (simp eq_refl)
        (λ r. simp eq_refl) (and_left t) h)
  where
    and_left :
        (t : TrxData) (r : Row)
        → has_chain t.trx_id (lower "eth") r ≡ true
        → has_txid t.trx_id r ≡ true
    and_left t r e = ground (arith, e)

store_guard-plain :
    (node : Node) (t : TrxData) (guard : Option AddressRow) (db : Db)
    → str_eq t.input "0x" ≡ true
    → store_guard node t guard db ≡ db
unfolding store_guard
store_guard-plain node t none db h = refl
store_guard-plain node t (some guard) db h = rw h refl

trx_data-fields :
    (x : EthTrx) (t : TrxData) → trx_data x ≡ ok t → (x.hash ≡ t.trx_id) × (x.input ≡ t.input)
unfolding trx_data
trx_data-fields x t h =
    let (_, _, h1) = >>=-eq-ok (int16 x.block_number) _ h in
    let (_, _, h2) = >>=-eq-ok (int16 x.value) _ h1 in
    let (_, _, h3) = >>=-eq-ok (int16 x.gas) _ h2 in
    let (_, _, h4) = >>=-eq-ok (int16 x.gas_price) _ h3 in
    let e = ok-injective h4 in (ap (λ (d : TrxData). d.trx_id) e, ap (λ (d : TrxData). d.input) e)

stores_deposit :
    (node : Node) (t : TrxData) (db : Db)
    → is_some (find_address contract t.to_address db.b_eths_address) ≡ true
    → str_eq t.input "0x" ≡ true
    → store_data node (ok t) db ≡ store_deposit t db
unfolding store_data
stores_deposit node t db e plain = rw (e, plain) refl

store_data-again :
    (node : Node) (r : Result TrxData) (db : Db)
    → ((t : TrxData)
        → r ≡ ok t
        → (str_eq t.input "0x" ≡ true)
          × Implies (has_txid t.trx_id) (has_chain t.trx_id (lower "eth")) db.b_deposit_transaction)
    → store_data node r (store_data node r db) ≡ store_data node r db
unfolding store_data store_deposit
store_data-again node (err raised) db h = refl
store_data-again node (ok t) db h =
    let (plain, only) = h t refl in
    elim (Bool-cases (is_some (find_address contract t.to_address db.b_eths_address))) [
      | inl e ↦
          let first = stores_deposit node t db e plain in
          rw first
            (stores_deposit node t (store_deposit t db) e plain ∙ store_deposit-again t db only)
      | inr e ↦
          let kept =
            store_guard-plain node t (find_address personal (some t.from_address) db.b_eths_address)
              db plain in
          rw (e, kept, e, kept) refl
    ]

-- A plain payment of ETH, one without a call, that is stored a second time leaves the database as
-- the first time left it, if the deposits that have its id are all of ETH.
pub trx_store_eth-again :
    (node : Node) (x : EthTrx) (db : Db)
    → str_eq x.input "0x" ≡ true
    → Implies (has_txid x.hash) (has_chain x.hash (lower "eth")) db.b_deposit_transaction
    → trx_store_eth node (some x) (trx_store_eth node (some x) db) ≡ trx_store_eth node (some x) db
unfolding trx_store_eth store_data
trx_store_eth-again node x db plain only = store_data-again node (trx_data x) db λ t e.
    let (id, input) = trx_data-fields x t e in
    (
      rw (← input) plain,
      subst (λ i. Implies (has_txid i) (has_chain i (lower "eth")) db.b_deposit_transaction) id
          only,
    )
