-- ===== src/Collector/Trx/Laws.antt =====
-- A transaction of BTC and the chains like it: what is recorded for it, from what the node says.
use mathlib.Core.Path.{ap₂}
use mathlib.Core.List.{append-nil, append_assoc}
use cross_chain_mid_ware.Base.{
  ℕ, ◌≡◌, refl, ap, sym, ◌∙◌, String, false, Option, none, some, List, [], ◌∷◌, ◌++◌, str_eq,
  get_elem?, Bool-cases, inl, inr,
}
use cross_chain_mid_ware.Base.DictOrder.{DictOrder}
use cross_chain_mid_ware.Base.Result.{
  ok, index_error, value_error, from_option, >>=-eq-ok, ok-injective,
}
use cross_chain_mid_ware.Collector.Scan.{
  Entry, Scan, start, elem, add_in, add_out, add_ins, add_outs,
}
use cross_chain_mid_ware.Collector.Amount.{fixed8}
use cross_chain_mid_ware.Collector.Record.{Transfers, record_trx, trx_type}
use cross_chain_mid_ware.Collector.Scan.Spec.{scanned, scan_lem}
use mathlib.Core.Option
use cross_chain_mid_ware.Collector.Trx.{
  Chain, Vout, TrxIn, coinbase, spend, InTrx, get_vout_address, find_vout, search_in_trx,
  collect_input, collect_vin, collect_vout, collect_output, BaseTrx, TrxData, trx_data,
  collect_pretty_transaction,
}

abbrev entries_of : List Entry × Scan → List Entry
entries_of q = q.0

abbrev out_scan_of : List Entry × Scan → Scan
out_scan_of q = q.1

abbrev ins_of : InTrx × List Entry × Scan → List Entry
ins_of r = r.1

abbrev scan_of : InTrx × List Entry × Scan → Scan
scan_of r = r.2

module _ (chain : Chain) (multisig : List String) where
  collect_input-adds :
      (txid : String) (n : ℕ) (t : InTrx) (vin : List Entry) (s : Scan)
      (r : InTrx × List Entry × Scan)
      → collect_input chain multisig txid n t vin s ≡ ok r
      → (es : List Entry) × (r.1 ≡ vin ++ es) × (r.2 ≡ add_ins multisig es s)
  unfolding collect_input add_ins
  collect_input-adds txid n t vin s r h =
      let (prev, _, h1) =
        >>=-eq-ok (from_option index_error (get_elem? (chain.previous txid) n)) _ h in
      let (addr, _, h2) = >>=-eq-ok (get_vout_address chain prev) _ h1 in
      elim (Bool-cases (str_eq addr "")) [
        | inl e ↦
            let q = ok-injective (rw e at h2) in
            ([], ap ins_of (sym q) ∙ sym (append-nil vin), ap scan_of (sym q))
        | inr e ↦
            let (t', _, h3) =
              >>=-eq-ok (search_in_trx chain t (find_vout n (chain.previous txid))) _
                (rw e at h2) in
            let (found, _, h4) = >>=-eq-ok (from_option value_error t') _ h3 in
            let entry : Entry = record {
              address = found.0;
              value = found.1;
              index = n;
              ref = txid;
            } in
            (entry ∷ [], ap ins_of (sym (ok-injective h4)), ap scan_of (sym (ok-injective h4)))
      ]

  add_ins-append :
      (es fs : List Entry) (s : Scan)
      → add_ins multisig (es ++ fs) s ≡ add_ins multisig fs (add_ins multisig es s)
  unfolding add_ins
  add_ins-append [] fs s = refl
  add_ins-append (e ∷ es) fs s = add_ins-append es fs (add_in multisig e s)

  -- The pass over the inputs adds the entries of `trx_data["vin"]`, one after the other.
  pub collect_vin-adds :
      (ins : List TrxIn) (t : InTrx) (vin : List Entry) (s : Scan) (r : List Entry × Scan)
      → collect_vin chain multisig ins t vin s ≡ ok r
      → (es : List Entry) × (r.0 ≡ vin ++ es) × (r.1 ≡ add_ins multisig es s)
  unfolding collect_vin add_ins
  collect_vin-adds [] t vin s r h = (
    [],
    ap entries_of (sym (ok-injective h)) ∙ sym (append-nil vin),
    ap out_scan_of (sym (ok-injective h)),
  )
  collect_vin-adds (coinbase ∷ ins) t vin s r h = collect_vin-adds ins t vin s r h
  collect_vin-adds (spend txid n ∷ ins) t vin s r h =
      let (m, h1, h2) = >>=-eq-ok (collect_input chain multisig txid n t vin s) _ h in
      let (es, e1, e2) = collect_input-adds txid n t vin s m h1 in
      let (fs, f1, f2) = collect_vin-adds ins m.0 m.1 m.2 r h2 in
      (
        es ++ fs,
        f1 ∙ ap (λ (l : List Entry). l ++ fs) e1 ∙ append_assoc vin es fs,
        f2 ∙ ap (add_ins multisig fs) e2 ∙ sym (add_ins-append es fs s),
      )

module _ (multisig : List String) where
  collect_output-adds :
      (v : Vout) (o : Option (List String)) (vout : List Entry) (s : Scan) (r : List Entry × Scan)
      → collect_output multisig v o vout s ≡ ok r
      → (es : List Entry) × (r.0 ≡ vout ++ es) × (r.1 ≡ add_outs multisig es s)
  unfolding collect_output add_outs
  collect_output-adds v none vout s r h = (
    [],
    ap entries_of (sym (ok-injective h)) ∙ sym (append-nil vout),
    ap out_scan_of (sym (ok-injective h)),
  )
  collect_output-adds v (some list) vout s r h =
      let (a, _, h1) = >>=-eq-ok (from_option index_error (get_elem? list 0)) _ h in
      let entry : Entry = record { address = a; value = v.value; index = v.n; ref = v.hex } in
      (entry ∷ [], ap entries_of (sym (ok-injective h1)), ap out_scan_of (sym (ok-injective h1)))

  add_outs-append :
      (es fs : List Entry) (s : Scan)
      → add_outs multisig (es ++ fs) s ≡ add_outs multisig fs (add_outs multisig es s)
  unfolding add_outs
  add_outs-append [] fs s = refl
  add_outs-append (e ∷ es) fs s = add_outs-append es fs (add_out multisig e s)

  -- The pass over the outputs adds the entries of `trx_data["vout"]`, one after the other.
  pub collect_vout-adds :
      (vs : List Vout) (vout : List Entry) (s : Scan) (r : List Entry × Scan)
      → collect_vout multisig vs vout s ≡ ok r
      → (es : List Entry) × (r.0 ≡ vout ++ es) × (r.1 ≡ add_outs multisig es s)
  unfolding collect_vout add_outs
  collect_vout-adds [] vout s r h = (
    [],
    ap entries_of (sym (ok-injective h)) ∙ sym (append-nil vout),
    ap out_scan_of (sym (ok-injective h)),
  )
  collect_vout-adds (v ∷ vs) vout s r h =
      let (m, h1, h2) = >>=-eq-ok (collect_output multisig v v.addresses vout s) _ h in
      let (es, e1, e2) = collect_output-adds v v.addresses vout s m h1 in
      let (fs, f1, f2) = collect_vout-adds vs m.0 m.1 r h2 in
      (
        es ++ fs,
        f1 ∙ ap (λ (l : List Entry). l ++ fs) e1 ∙ append_assoc vout es fs,
        f2 ∙ ap (add_outs multisig fs) e2 ∙ sym (add_outs-append es fs s),
      )

abbrev fst_of : Option TrxData × Transfers → Option TrxData
fst_of q = q.0

abbrev snd_of : Option TrxData × Transfers → Transfers
snd_of q = q.1

-- Whenever a transaction is collected without an error, and the empty text is no multisig address,
-- `trx_data["vin"]` and `trx_data["vout"]` decide: the type that is returned is the one of what
-- there is to find in them, and the deposits and withdrawals recorded are made from it.
pub collect_pretty_transaction_lem :
    (chain : Chain) (order : DictOrder ℕ) (multisig : List String) (symbol : String) (trx : BaseTrx)
    (block_num : ℕ) (c : Transfers) (r : Option TrxData × Transfers)
    → elem "" multisig ≡ false
    → collect_pretty_transaction chain order multisig symbol trx block_num c ≡ ok r
    → (ins outs : List Entry) × (r.0
        ≡ Option.map (trx_data trx.txid block_num ins outs) (trx_type (scanned multisig ins outs)))
      × (record_trx order fixed8 symbol trx.txid block_num (scanned multisig ins outs) c ≡ ok r.1)
unfolding collect_pretty_transaction
collect_pretty_transaction_lem chain order multisig symbol trx block_num c r ne h =
    let (i, hi, h1) = >>=-eq-ok (collect_vin chain multisig trx.vin none [] start) _ h in
    let (u, hu, h2) = >>=-eq-ok (collect_vout multisig trx.vout [] i.1) _ h1 in
    let (c', hc, h3) = >>=-eq-ok (record_trx order fixed8 symbol trx.txid block_num u.1 c) _ h2 in
    let (es, e1, e2) = collect_vin-adds chain multisig trx.vin none [] start i hi in
    let (fs, f1, f2) = collect_vout-adds multisig trx.vout [] i.1 u hu in
    let found : u.1 ≡ scanned multisig es fs =
      f2 ∙ ap (add_outs multisig fs) e2 ∙ scan_lem multisig ne es fs in
    let q = ok-injective h3 in
    (
      es,
      fs,
      ap fst_of (sym q)
          ∙ ap₂ (λ v w. Option.map (trx_data trx.txid block_num v w) (trx_type u.1)) e1 f1
          ∙ ap (λ s. Option.map (trx_data trx.txid block_num es fs) (trx_type s)) found,
      rw found at hc ∙ ap ok (ap snd_of q),
    )
