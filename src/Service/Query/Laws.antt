-- ===== src/Service/Query/Laws.antt =====
-- What `b_query_trans_cache` holds (service/sim_api.py).
use mathlib.Core.Path.{subst}
use cross_chain_mid_ware.Base.{
  ℕ, ◌<◌, ◌↔◌, arith, ◌≡◌, refl, String, Bool, true, ◌&&◌, Option, none, some, List, [], ◌∷◌, map,
  All, All-append, Bool-cases, Option-cases, inl, inr,
}
use cross_chain_mid_ware.Base.Text.{lower}
use cross_chain_mid_ware.Base.Result.{Result, ok, ok-injective, >>=-eq-ok}
use cross_chain_mid_ware.Service.Interface.{
  Arg, given, mistyped, Plugin, sim_btc, hc, usdt, btm, eth, any_plugin,
}
use cross_chain_mid_ware.Service.Query.{
  QueriedVin, QueriedTrx, QueryRow, find_query, is_mined, is_confirmed, is_cache, clear_sig,
  clear_script_sigs, QueryOutcome, store_query, query_with, zchain_trans_query_trx,
}

-- The first input, if there is one, was mined in no block 0, where its block is told.
abbrev pub FirstMined : Option (List QueriedVin) → Type 0
FirstMined none = Unit
FirstMined (some []) = Unit
FirstMined (some (v ∷ vs)) = (h : ℕ) → v.block_height ≡ some h → 0 < h

-- More confirmations than `n`.
abbrev pub HasMore : ℕ → Option ℕ → Type 0
HasMore n c = (m : ℕ) × (c ≡ some m) × (n < m)

-- A result of which no more is to come: of BTC, its kin and USDT, a transaction with outputs and more
-- than seven confirmations; of HC, one with outputs, whose first input is not of block 0; of BTM, one
-- with outputs; of ETH and its tokens, one with an input.
abbrev pub Settled : Plugin → QueriedTrx → Type 0
Settled (sim_btc name) t = (t.has_vout ≡ true) × HasMore 7 t.confirmations
Settled usdt t = (t.has_vout ≡ true) × HasMore 7 t.confirmations
Settled hc t = (t.has_vout ≡ true) × FirstMined t.vin
Settled btm t = t.has_outputs ≡ true
Settled eth t = t.has_input ≡ true

confirmed-HasMore :
    (v : Bool) (c : Option ℕ) → ((v && is_confirmed c) ≡ true) ↔ ((v ≡ true) × HasMore 7 c)
confirmed-HasMore v none = (λ h. absurd (ground (arith, h)), λ s. cc s.1.1)
confirmed-HasMore v (some n) =
    (λ h. (ground (arith, h), (n, refl, ground (arith, h))), λ s. ground (arith, s.0, s.1.2, s.1.1))

pub mined-FirstMined :
    (v : Bool) (i : Option (List QueriedVin))
    → ((v && is_mined i) ≡ true) ↔ ((v ≡ true) × FirstMined i)
mined-FirstMined v none = (λ h. (ground (arith, h), tt), λ s. ground (arith, s.0))
mined-FirstMined v (some []) = (λ h. (ground (arith, h), tt), λ s. ground (arith, s.0))
mined-FirstMined v (some (w ∷ ws)) = elim (Option-cases w.block_height) [
  | inl e ↦ rw e (λ h. (ground (arith, h), λ n q. cc q), λ s. ground (arith, s.0))
  | inr (m, e) ↦ rw e (
    λ h. (ground (arith, h), λ n q. ground (arith, h, q)),
    λ s. let l = s.1 m refl in ground (arith, s.0, l),
  )
]

pub is_cache-Settled : (p : Plugin) (t : QueriedTrx) → (is_cache p t ≡ true) ↔ Settled p t
unfolding is_cache
is_cache-Settled (sim_btc name) t = confirmed-HasMore t.has_vout t.confirmations
is_cache-Settled usdt t = confirmed-HasMore t.has_vout t.confirmations
is_cache-Settled hc t = mined-FirstMined t.has_vout t.vin
is_cache-Settled btm t = (λ h. h, λ h. h)
is_cache-Settled eth t = (λ h. h, λ h. h)

pub FirstMined-clear :
    (v : Option (List QueriedVin))
    → FirstMined v
    → FirstMined (elim v [ none ↦ none | some vins ↦ some (map clear_sig vins) ])
FirstMined-clear none h = tt
FirstMined-clear (some []) h = tt
FirstMined-clear (some (v ∷ vs)) h = h

pub Settled-clear_script_sigs :
    (p : Plugin) (t : QueriedTrx) → Settled p t → Settled p (clear_script_sigs t)
unfolding clear_script_sigs
Settled-clear_script_sigs (sim_btc name) t h = h
Settled-clear_script_sigs usdt t h = h
Settled-clear_script_sigs hc t h = (h.0, FirstMined-clear t.vin h.1)
Settled-clear_script_sigs btm t h = h
Settled-clear_script_sigs eth t h = h

-- The row is of a chain with a plug-in, and its result is one that is accepted for this plug-in.
abbrev pub IsAccepted : (Plugin → QueriedTrx → Type 0) → List String → QueryRow → Type 0
IsAccepted accept sim_btc_plugin r =
    (p : Plugin) × (any_plugin sim_btc_plugin r.chain_id r.chain_id ≡ some p) × accept p r.result

-- For every test that accepts what the handler caches.
module _ (sim_btc_plugin : List String) (query : Plugin → String → Result (Option QueriedTrx))
    (accept : Plugin → QueriedTrx → Type 0)
    (wide : (p : Plugin) (t : QueriedTrx)
      → is_cache p t ≡ true
      → accept p (clear_script_sigs t)) where
  store_query-IsAccepted :
      (chain trxid : String) (p : Plugin) (t : Option QueriedTrx) (rows : List QueryRow)
      → any_plugin sim_btc_plugin chain chain ≡ some p
      → All (IsAccepted accept sim_btc_plugin) rows
      → All
          (IsAccepted accept sim_btc_plugin)
          (store_query sim_btc_plugin query chain trxid p t rows).1
  unfolding store_query
  store_query-IsAccepted chain trxid p none rows h a = a
  store_query-IsAccepted chain trxid p (some t) rows h a = elim (Bool-cases (is_cache p t)) [
    | inl c ↦ rw c (All-append (IsAccepted accept sim_btc_plugin) rows _ a ((p, h, wide p t c), tt))
    | inr c ↦ rw c a
  ]

  query_with-IsAccepted :
      (chain trxid : String) (o : Option Plugin) (rows : List QueryRow) (r : QueryOutcome)
      → any_plugin sim_btc_plugin chain chain ≡ o
      → query_with sim_btc_plugin query chain trxid o rows ≡ ok r
      → All (IsAccepted accept sim_btc_plugin) rows
      → All (IsAccepted accept sim_btc_plugin) r.1
  unfolding query_with
  query_with-IsAccepted chain trxid none rows r h e a =
      subst (λ (q : QueryOutcome). All (IsAccepted accept sim_btc_plugin) q.1) (ok-injective e) a
  query_with-IsAccepted chain trxid (some p) rows r h e a =
      let (t, h1, h2) = >>=-eq-ok (query p trxid) _ e in
      subst (λ (q : QueryOutcome). All (IsAccepted accept sim_btc_plugin) q.1) (ok-injective h2)
        (store_query-IsAccepted chain trxid p t rows h a)

  pub query_trx-IsAccepted :
      (chain : Arg String) (trxid : String) (rows : List QueryRow) (r : QueryOutcome)
      → zchain_trans_query_trx sim_btc_plugin query chain trxid rows ≡ ok r
      → All (IsAccepted accept sim_btc_plugin) rows
      → All (IsAccepted accept sim_btc_plugin) r.1
  unfolding zchain_trans_query_trx
  query_trx-IsAccepted mistyped trxid rows r e a =
      subst (λ (q : QueryOutcome). All (IsAccepted accept sim_btc_plugin) q.1) (ok-injective e) a
  query_trx-IsAccepted (given chain) trxid rows r e a =
      elim (Option-cases (find_query (lower chain) trxid rows)) [
        | inl m ↦
            query_with-IsAccepted (lower chain) trxid
              (any_plugin sim_btc_plugin (lower chain) (lower chain)) rows r refl
              (rw (zchain_trans_query_trx, m) at e) a
        | inr (x, m) ↦
            subst (λ (q : QueryOutcome). All (IsAccepted accept sim_btc_plugin) q.1)
              (ok-injective (rw (zchain_trans_query_trx, m) at e)) a
      ]

module _ (sim_btc_plugin : List String) (query : Plugin → String → Result (Option QueriedTrx)) where
  -- The row is of a chain with a plug-in, and its result is settled.
  abbrev pub IsSettled : QueryRow → Type 0
  IsSettled = IsAccepted Settled sim_btc_plugin
