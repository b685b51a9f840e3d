-- ===== src/Eth/Store/Payments.antt =====
-- What the logs of a guard's call add to the withdrawals.
use mathlib.Core.List.{append_assoc, append-nil}
use cross_chain_mid_ware.Base.{
  ℕ, ◌≡◌, refl, ap, ◌∙◌, sym, String, Bool, false, Option, none, some, List, [], ◌∷◌, ◌++◌, All,
  All-append, str_eq, arith, if◌then◌else◌, Bool-cases, inl, inr,
}
use cross_chain_mid_ware.Base.Result.{Result, ok, err, ◌>>=◌}
use cross_chain_mid_ware.Base.Text.Hex.{int16}
use cross_chain_mid_ware.Eth.Node.{EthTrx, Log, Receipt, Node, payment_topic, datas, zero_word}
use cross_chain_mid_ware.Eth.Rows.{
  no_index, number_index, Row, Db, AddressRow, found, update, store, set_row, has_index, index_eq,
  each, find_address, personal, contract,
}
use cross_chain_mid_ware.Eth.Store.{
  TrxData, trx_data, deposit, guardcall, eth_withdraw, eth_row, store_withdraw, store_topic,
  store_log, store_call, store_payment, store_topics, store_logs, store_data, store_guard,
  trx_store_eth, is_some,
}
use cross_chain_mid_ware.Eth.Store.Laws.{IsKept, trx_store_eth-IsKept}

-- The rows of the guards' calls have no index.
abbrev pub NoIndex : Db → Type 0
NoIndex db = All (λ (r : Row). r.index ≡ no_index) db.b_guardcall_transaction

update-NoIndex :
    (fits : Row → Bool) (new : Row) (rows : List Row)
    → new.index ≡ no_index
    → All (λ (r : Row). r.index ≡ no_index) rows
    → All (λ (r : Row). r.index ≡ no_index) (update fits new rows)
unfolding update set_row
update-NoIndex fits new [] n h = tt
update-NoIndex fits new (r ∷ rs) n h = elim (Bool-cases (fits r)) [
  | inl e ↦ rw e (rw n h.0, h.1)
  | inr e ↦ rw e (h.0, update-NoIndex fits new rs n h.1)
]

store-NoIndex :
    (seen fits : Row → Bool) (new : Row) (rows : List Row)
    → new.index ≡ no_index
    → All (λ (r : Row). r.index ≡ no_index) rows
    → All (λ (r : Row). r.index ≡ no_index) (store seen fits new rows)
unfolding store
store-NoIndex seen fits new rows n h = elim (Bool-cases (found seen rows)) [
  | inl e ↦ rw e (update-NoIndex fits new rows n h)
  | inr e ↦ rw e (All-append _ rows (new ∷ []) h (n, tt))
]

NoIndex-IsKept : IsKept NoIndex
unfolding guardcall deposit
NoIndex-IsKept = record {
  deposits = λ db rows h. h;
  withdraws = λ db rows h. h;
  guard_calls = λ db guard receipt t h. store-NoIndex _ _ _ db.b_guardcall_transaction refl h;
}

-- No row among the guards' calls ever has an index, whatever the transactions stored.
pub trx_store_eth-NoIndex :
    (node : Node) (x : Option EthTrx) (db : Db) → NoIndex db → NoIndex (trx_store_eth node x db)
trx_store_eth-NoIndex node x db h = trx_store_eth-IsKept NoIndex NoIndex-IsKept node x db h

found-NoIndex :
    (txid symbol : String) (n : ℕ) (rows : List Row)
    → All (λ (r : Row). r.index ≡ no_index) rows
    → found (has_index txid (number_index n) symbol) rows ≡ false
unfolding found
found-NoIndex txid symbol n [] h = refl
found-NoIndex txid symbol n (r ∷ rs) h =
    ground (arith, ap (λ i. index_eq i (number_index n)) h.0, found-NoIndex txid symbol n rs h.1)

abbrev IsIndexed : Result (Option Row) → Type 0
IsIndexed (err raised) = Unit
IsIndexed (ok none) = Unit
IsIndexed (ok (some row)) = (n : ℕ) × (row.index ≡ number_index n)

eth_withdraw-IsIndexed : (t : TrxData) (ws : List String) → IsIndexed (eth_withdraw t ws)
unfolding eth_withdraw
eth_withdraw-IsIndexed t (d0 ∷ d1 ∷ d2 ∷ d3 ∷ d4 ∷ []) = elim (Bool-cases (str_eq d3 zero_word)) [
  | inl e ↦ rw e (paid (int16 d2) (int16 d4))
  | inr e ↦ rw e tt
]
  where
    paid :
        (a b : Result ℕ)
        → IsIndexed (a >>= λ value. b >>= λ index. ok (some (eth_row t d0 d1 value index)))
    paid (err raised) b = tt
    paid (ok value) (err raised) = tt
    paid (ok value) (ok index) = (index, refl)
eth_withdraw-IsIndexed t _ = tt

-- What is read from one text, in front of what the others tell of.
abbrev pub read_rows : Result (Option Row) → List Row → List Row
read_rows (err raised) rest = []
read_rows (ok none) rest = rest
read_rows (ok (some row)) rest = row ∷ rest

-- The payments of ETH that texts of data tell of, in their order, up to the first that
-- cannot be read.
abbrev pub payments : TrxData → List String → List Row
payments t [] = []
payments t (text ∷ texts) = read_rows (eth_withdraw t (datas text)) (payments t texts)

-- The data of a log, as often as it has the topic of payments.
abbrev pub texts_of : String → List String → List String
texts_of text [] = []
texts_of text (topic ∷ topics) =
    let rest = texts_of text topics in if str_eq topic payment_topic then text ∷ rest else rest

abbrev pub texts_in : String → Option (List String) → List String
texts_in text none = []
texts_in text (some topics) = texts_of text topics

abbrev pub log_texts : List Log → List String
log_texts [] = []
log_texts (log ∷ logs) = texts_in log.data_text log.topics ++ log_texts logs

-- One text of data, with what the loop over the others does.
pay_step :
    (t : TrxData) (rest : List Row) (more : Db → Db × Bool) (r : Result (Option Row)) (db : Db)
    → IsIndexed r
    → NoIndex db
    → ((now : Db)
        → NoIndex now
        → (more now).0.b_withdraw_transaction ≡ now.b_withdraw_transaction ++ rest)
    → (let next = store_payment r db in
        if next.1 then more next.0 else next).0.b_withdraw_transaction
      ≡ db.b_withdraw_transaction ++ read_rows r rest
unfolding store_payment store_withdraw
pay_step t rest more (err raised) db i h go = sym (append-nil _)
pay_step t rest more (ok none) db i h go = go db h
pay_step t rest more (ok (some row)) db (n, e) h go =
    let fresh : found (has_index row.txid row.index row.asset_symbol) db.b_guardcall_transaction
        ≡ false =
      rw e (found-NoIndex row.txid row.asset_symbol n db.b_guardcall_transaction h) in
    let stored : store_withdraw row db
        ≡ record db { b_withdraw_transaction = db.b_withdraw_transaction ++ row ∷ [] } =
      rw fresh refl in
    rw stored (
      go (record db { b_withdraw_transaction = db.b_withdraw_transaction ++ row ∷ [] }) h
      ∙ append_assoc _ (row ∷ []) rest)

each-payments :
    (t : TrxData) (texts : List String) (db : Db)
    → NoIndex db
    → (each (λ text. store_payment (eth_withdraw t (datas text))) texts db).0.b_withdraw_transaction
      ≡ db.b_withdraw_transaction ++ payments t texts
unfolding each
each-payments t [] db h = sym (append-nil _)
each-payments t (text ∷ texts) db h =
    pay_step t (payments t texts) (each (λ x. store_payment (eth_withdraw t (datas x))) texts)
      (eth_withdraw t (datas text)) db (eth_withdraw-IsIndexed t (datas text)) h
      (each-payments t texts)

each-append :
    {A S : Type 0} (body : A → S → S × Bool) (xs ys : List A) (s : S)
    → let first = each body xs s in
      each body (xs ++ ys) s ≡ (if first.1 then each body ys first.0 else first)
unfolding each
each-append body [] ys s = refl
each-append body (x ∷ xs) ys s = ground (arith, each-append body xs ys (body x s).0)

topics-texts :
    (t : TrxData) (text : String) (topics : List String) (db : Db)
    → each (store_topic t text) topics db
      ≡ each (λ x. store_payment (eth_withdraw t (datas x))) (texts_of text topics) db
unfolding each store_topic
topics-texts t text [] db = refl
topics-texts t text (topic ∷ topics) db = elim (Bool-cases (str_eq topic payment_topic)) [
  | inl e ↦
      let next = store_payment (eth_withdraw t (datas text)) db in
      rw e (ap (λ r. if next.1 then r else next) (topics-texts t text topics next.0))
  | inr e ↦ rw e (topics-texts t text topics db)
]

log-texts :
    (t : TrxData) (text : String) (topics : Option (List String)) (db : Db)
    → store_topics t text topics db
      ≡ each (λ x. store_payment (eth_withdraw t (datas x))) (texts_in text topics) db
unfolding each store_topics
log-texts t text none db = refl
log-texts t text (some topics) db = topics-texts t text topics db

logs-texts :
    (t : TrxData) (logs : List Log) (db : Db)
    → each (store_log t) logs db
      ≡ each (λ x. store_payment (eth_withdraw t (datas x))) (log_texts logs) db
unfolding each store_log
logs-texts t [] db = refl
logs-texts t (log ∷ logs) db =
    let pay = λ (x : String). store_payment (eth_withdraw t (datas x)) in
    let first = each pay (texts_in log.data_text log.topics) db in
    ap (λ n. if n.1 then each (store_log t) logs n.0 else n)
      (log-texts t log.data_text log.topics db)
    ∙ ap (λ r. if first.1 then r else first) (logs-texts t logs first.0)
    ∙ sym (each-append pay (texts_in log.data_text log.topics) (log_texts logs) db)

called :
    (node : Node) (t : TrxData) (guard : AddressRow) (db : Db)
    → str_eq t.input "0x" ≡ false
    → find_address personal (some t.from_address) db.b_eths_address ≡ some guard
    → store_data node (ok t) db ≡ store_call guard t (node.get_trx_receipt t.trx_id) db
unfolding store_data store_guard
called node t guard db h2 h3 =
    elim (Bool-cases (is_some (find_address contract t.to_address db.b_eths_address))) [
      | inl e ↦ rw (e, h2, h3, h2) refl
      | inr e ↦ rw (e, h3, h2) refl
    ]

-- A guard's call with logs adds to the withdrawals the payments of ETH that its logs tell of, in
-- their order and up to the first that cannot be read, whatever withdrawals are there: also when
-- they are there already. The rows of the guards' calls are to have no index.
pub trx_store_eth-payments :
    (node : Node) (x : EthTrx) (t : TrxData) (guard : AddressRow) (receipt : Receipt) (log : Log)
    (logs : List Log) (db : Db)
    → NoIndex db
    → trx_data x ≡ ok t
    → str_eq t.input "0x" ≡ false
    → find_address personal (some t.from_address) db.b_eths_address ≡ some guard
    → node.get_trx_receipt t.trx_id ≡ ok (some receipt)
    → receipt.logs ≡ some (log ∷ logs)
    → (trx_store_eth node (some x) db).b_withdraw_transaction
      ≡ db.b_withdraw_transaction ++ payments t (log_texts (log ∷ logs))
unfolding trx_store_eth store_call store_logs
trx_store_eth-payments node x t guard receipt log logs db n h1 h2 h3 h4 h5 =
    ap (λ d. (store_data node d db).b_withdraw_transaction) h1
    ∙ ap (λ d. d.b_withdraw_transaction)
        (called node t guard db h2 h3
          ∙ ap (λ r. store_call guard t r db) h4
          ∙ ap (λ ls. store_logs (guardcall guard receipt t) t ls db) h5)
    ∙ ap (λ p. p.0.b_withdraw_transaction) (logs-texts t (log ∷ logs) db)
    ∙ each-payments t (log_texts (log ∷ logs)) db n
