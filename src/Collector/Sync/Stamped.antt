-- ===== src/Collector/Sync/Stamped.antt =====
-- Both functions that collect a transaction (btc_data_collector/collect_btc_block.py), as the
-- collector's main loop calls them, and the block and chain that their records name.
use mathlib.Core.Path.{subst}
use cross_chain_mid_ware.Base.{
  ℕ, ◌≡◌, refl, ap, ◌∙◌, String, Option, none, some, List, [], ◌∷◌, map, eq_refl, All, All-append,
}
use cross_chain_mid_ware.Base.Text.{lower}
use cross_chain_mid_ware.Base.DictOrder.{DictOrder}
use cross_chain_mid_ware.Base.Result.{Result, ok, ◌>>=◌, ok-injective, >>=-eq-ok}
use cross_chain_mid_ware.Collector.Amount.{fixed8, to_btm_precision_str}
use cross_chain_mid_ware.Collector.Scan.{Scan, start}
use cross_chain_mid_ware.Collector.Record.{
  Transfers, TrxType, hot_cold, withdraw, deposit, invalid_hot_cold, invalid_withdraw,
  invalid_deposit, trx_type, first_item, transfer, deposit_of, withdraws_of, record_deposit,
  record_type, record_trx,
}
use cross_chain_mid_ware.Collector.Trx.{
  BaseTrx, Chain, collect_vin, collect_vout, TrxData, collect_pretty_transaction,
}
use cross_chain_mid_ware.Collector.BtmTrx.{BtmTrx, collect_pretty_transaction_btm}
use cross_chain_mid_ware.Collector.Store.Laws.{IsOf}
use cross_chain_mid_ware.Collector.Sync.Expected.{AllOf, Stamps}

module _ (order : DictOrder ℕ) (amount_text : ℕ → String) (symbol txid : String) (n : ℕ) where
  transfer-IsOf :
      (from to : String) (v : ℕ)
      → IsOf (lower symbol) n (transfer order amount_text symbol txid n from to v)
  transfer-IsOf from to v = record { chain_id = eq_refl (lower symbol); block_num = refl }

  withdraws-AllOf :
      (from : String) (l : List (String × ℕ))
      → All
          (IsOf (lower symbol) n)
          (map (λ kv. transfer order amount_text symbol txid n from kv.0 kv.1) l)
  withdraws-AllOf from [] = tt
  withdraws-AllOf from (kv ∷ l) = (transfer-IsOf from kv.0 kv.1, withdraws-AllOf from l)

  record_deposit-AllOf :
      (s : Scan) (c c' : Transfers)
      → record_deposit order amount_text symbol txid n s c ≡ ok c'
      → AllOf (lower symbol) n c
      → AllOf (lower symbol) n c'
  unfolding record_deposit deposit_of
  record_deposit-AllOf s c c' h a =
      let (d, h1, h2) = >>=-eq-ok (deposit_of order amount_text symbol txid n s) _ h in
      let (from, g1, g2) = >>=-eq-ok (first_item (order.items s.in_set)) _ h1 in
      let (out, g3, g4) = >>=-eq-ok (first_item (order.items s.out_set)) _ g2 in
      let of_block : IsOf (lower symbol) n d =
        subst (IsOf (lower symbol) n) (ok-injective g4)
          (transfer-IsOf from.0 s.multisig_out out.1) in
      subst (AllOf (lower symbol) n) (ok-injective h2)
        (All-append (IsOf (lower symbol) n) c.deposits (d ∷ []) a.0 (of_block, tt), a.1)

  record_type-AllOf :
      (s : Scan) (type : Option TrxType) (c c' : Transfers)
      → record_type order amount_text symbol txid n s type c ≡ ok c'
      → AllOf (lower symbol) n c
      → AllOf (lower symbol) n c'
  unfolding record_type withdraws_of
  record_type-AllOf s (some deposit) c c' h a = record_deposit-AllOf s c c' h a
  record_type-AllOf s (some hot_cold) c c' h a = record_deposit-AllOf s c c' h a
  record_type-AllOf s (some withdraw) c c' h a = subst (AllOf (lower symbol) n) (ok-injective h) (
    a.0,
    All-append (IsOf (lower symbol) n) c.withdraws _ a.1
        (withdraws-AllOf s.multisig_in (order.items s.out_set)),
  )
  record_type-AllOf s (some invalid_hot_cold) c c' h a =
      subst (AllOf (lower symbol) n) (ok-injective h) a
  record_type-AllOf s (some invalid_withdraw) c c' h a =
      subst (AllOf (lower symbol) n) (ok-injective h) a
  record_type-AllOf s (some invalid_deposit) c c' h a =
      subst (AllOf (lower symbol) n) (ok-injective h) a
  record_type-AllOf s none c c' h a = subst (AllOf (lower symbol) n) (ok-injective h) a

  pub record_trx-AllOf :
      (s : Scan) (c c' : Transfers)
      → record_trx order amount_text symbol txid n s c ≡ ok c'
      → AllOf (lower symbol) n c
      → AllOf (lower symbol) n c'
  unfolding record_trx
  record_trx-AllOf s c c' h a = record_type-AllOf s (trx_type s) c c' h a

abbrev snd_of : Option TrxData × Transfers → Transfers
snd_of q = q.1

abbrev pub caches_of : Result (Option TrxData × Transfers) → Result Transfers
caches_of r = r >>= λ q. ok q.1

module _ (order : DictOrder ℕ) (multisig : List String) (symbol : String) where
  -- The collector's main loop on the transactions of BTC and the coins like it, and on those of BTM.
  unfoldable pub collect_trx_btc : Chain → BaseTrx → ℕ → Transfers → Result Transfers
  collect_trx_btc chain t n c =
      caches_of (collect_pretty_transaction chain order multisig symbol t n c)

  unfoldable pub collect_trx_btm : BtmTrx → ℕ → Transfers → Result Transfers
  collect_trx_btm t n c = caches_of (collect_pretty_transaction_btm order multisig symbol t n c)

  -- Whenever a transaction of BTC or a coin like it is collected without an error into caches whose
  -- transfers are all of one block of the chain, and for that block, then so are those afterwards.
  pub collect_trx_btc-Stamps : (chain : Chain) → Stamps symbol (collect_trx_btc chain)
  unfolding collect_trx_btc collect_pretty_transaction
  collect_trx_btc-Stamps chain t n c c' h a =
      let (q, h1, h2) =
        >>=-eq-ok (collect_pretty_transaction chain order multisig symbol t n c) _ h in
      let (i, h3, h4) = >>=-eq-ok (collect_vin chain multisig t.vin none [] start) _ h1 in
      let (o, h5, h6) = >>=-eq-ok (collect_vout multisig t.vout [] i.1) _ h4 in
      let (r, h7, h8) = >>=-eq-ok (record_trx order fixed8 symbol t.txid n o.1 c) _ h6 in
      subst (AllOf (lower symbol) n) (ap snd_of (ok-injective h8) ∙ ok-injective h2)
        (record_trx-AllOf order fixed8 symbol t.txid n o.1 c r h7 a)

  -- The same for a transaction of BTM: whenever it is collected without an error into caches whose
  -- transfers are all of one block of the chain, and for that block, then so are those afterwards.
  collect_trx_btm-Stamps : Stamps symbol collect_trx_btm
  unfolding collect_trx_btm collect_pretty_transaction_btm
  collect_trx_btm-Stamps t n c c' h a =
      let (q, h1, h2) =
        >>=-eq-ok (collect_pretty_transaction_btm order multisig symbol t n c) _ h in
      let (r, h3, h4) = >>=-eq-ok (record_trx order to_btm_precision_str symbol t.id n _ c) _ h1 in
      subst (AllOf (lower symbol) n) (ap snd_of (ok-injective h4) ∙ ok-injective h2)
        (record_trx-AllOf order to_btm_precision_str symbol t.id n _ c r h3 a)
