-- ===== src/Collector/Record/Laws.antt =====
-- What a transaction is recorded as.
use mathlib.Core.Path.{subst}
use mathlib.Core.List.{Perm}
use mathlib.Core.List.Perm
use cross_chain_mid_ware.Base.{
  ℕ, ◌≡◌, ◌≢◌, ◌↔◌, refl, ap, sym, String, true, false, ◌&&◌, none, some, List, [], ◌∷◌, ◌++◌, map,
  arith, str_eq, Bool-cases, inl, inr, length,
}
use cross_chain_mid_ware.Base.Dict.{Dict, NodupKeys}
use cross_chain_mid_ware.Base.DictOrder.{DictOrder}
use cross_chain_mid_ware.Base.Result.{ok, ok-injective}
use cross_chain_mid_ware.Collector.Scan.{Entry, Scan, elem}
use cross_chain_mid_ware.Collector.Scan.Spec.{
  scanned, links, payments, totals, first, all_same, at_most_one, link-ne_empty,
}
use cross_chain_mid_ware.Collector.Record.{
  hot_cold, withdraw, deposit, trx_type, Transfers, transfer, withdraws_of, record_type, record_trx,
}

module _ (multisig : List String) (no_empty : elem "" multisig ≡ false) where
  links-ne_empty :
      (es : List Entry) (a : String) (rest : List String)
      → links multisig es ≡ a ∷ rest
      → str_eq a "" ≡ false
  unfolding links
  links-ne_empty [] a rest h = cc
  links-ne_empty (e ∷ es) a rest h = elim (Bool-cases (elem e.address multisig)) [
    | inl l ↦
        subst (λ b. str_eq b "" ≡ false) (ap first (rw l at h))
          (link-ne_empty multisig no_empty e.address l)
    | inr l ↦ links-ne_empty es a rest (rw l at h)
  ]

  trx_type-table :
      (ls ps : List String) (in_set out_set : Dict ℕ)
      → ((a : String) (rest : List String) → ls ≡ a ∷ rest → str_eq a "" ≡ false)
      → ((a : String) (rest : List String) → ps ≡ a ∷ rest → str_eq a "" ≡ false)
      → let t = trx_type (record {
        in_set = in_set;
        out_set = out_set;
        multisig_in = first ls;
        multisig_out = first ps;
        is_valid = all_same ls && at_most_one ps;
      }) in
        ((t ≡ some deposit) ↔ ((ls ≡ []) × (length ps ≡ 1) × (length in_set ≡ 1)))
        × ((t ≡ some withdraw) ↔ ((ls ≢ []) × (all_same ls ≡ true) × (ps ≡ [])))
        × ((t ≡ some hot_cold) ↔ ((ls ≢ []) × (all_same ls ≡ true) × (length ps ≡ 1)))
        × ((t ≡ none) ↔ ((ls ≡ []) × (ps ≡ [])))
  unfolding trx_type
  trx_type-table [] [] i o f g = ground arith
  trx_type-table [] (p ∷ ps) i o f g = ground (arith, g p ps refl)
  trx_type-table (l ∷ ls) [] i o f g = ground (arith, f l ls refl)
  trx_type-table (l ∷ ls) (p ∷ ps) i o f g = ground (arith, f l ls refl, g p ps refl)

  -- For a transaction with inputs `ins` and outputs `outs`, where the empty text is no multisig
  -- address: it is a deposit exactly when no input comes from a multisig address, one of the
  -- outputs that are no change goes to one, and all inputs have one address; a withdrawal exactly
  -- when inputs come from one multisig address and no such output goes to one; a transfer between
  -- hot and cold wallet exactly when inputs come from one multisig address and one such output goes
  -- to one; and there is nothing to record exactly when neither side has a multisig address.
  pub trx_type-scanned :
      (ins outs : List Entry)
      → let t = trx_type (scanned multisig ins outs) in
        let ls = links multisig ins in
        let ps = links multisig (payments (totals ins) outs) in
        ((t ≡ some deposit) ↔ ((ls ≡ []) × (length ps ≡ 1) × (length (totals ins) ≡ 1)))
        × ((t ≡ some withdraw) ↔ ((ls ≢ []) × (all_same ls ≡ true) × (ps ≡ [])))
        × ((t ≡ some hot_cold) ↔ ((ls ≢ []) × (all_same ls ≡ true) × (length ps ≡ 1)))
        × ((t ≡ none) ↔ ((ls ≡ []) × (ps ≡ [])))
  trx_type-scanned ins outs =
      trx_type-table (links multisig ins) (links multisig (payments (totals ins) outs)) (totals ins)
        (totals (payments (totals ins) outs)) (links-ne_empty ins)
        (links-ne_empty (payments (totals ins) outs))

module _ (amount_text : ℕ → String) (symbol : String) where
  -- The withdrawals recorded for a transaction are one for each address that is paid, with all that
  -- it is paid, in an order that the dict decides.
  pub record_trx-withdraw :
      (order : DictOrder ℕ) (txid : String) (block_num : ℕ) (s : Scan) (c c' : Transfers)
      → trx_type s ≡ some withdraw
      → NodupKeys s.out_set
      → record_trx order amount_text symbol txid block_num s c ≡ ok c'
      → (c'.deposits ≡ c.deposits)
        × Perm c'.withdraws (
            c.withdraws
            ++ map
                (λ kv. transfer order amount_text symbol txid block_num s.multisig_in kv.0 kv.1)
                s.out_set)
  unfolding record_trx record_type withdraws_of
  record_trx-withdraw order txid block_num s c c' t u h =
      let q = ok-injective (rw t at h) in
      (
        ap Transfers.deposits (sym q),
        subst
            (λ (d : Transfers). Perm d.withdraws (
              c.withdraws
              ++ map
                  (λ kv. transfer order amount_text symbol txid block_num s.multisig_in kv.0 kv.1)
                  s.out_set))
            q (Perm.append_left c.withdraws (Perm.map _ (order.items-perm s.out_set u))),
      )
