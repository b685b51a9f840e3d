-- ===== src/Service/Batch/Laws.antt =====
-- What the handlers of queries, the single and the batch, make of the cache that they share.
use mathlib.Core.Path.{subst}
use cross_chain_mid_ware.Base.{
  ℕ, ◌<◌, ◌≡◌, refl, String, Bool, true, ◌&&◌, Option, none, some, List, [], ◌∷◌, All, All-append,
  Bool-cases, inl, inr, arith,
}
use cross_chain_mid_ware.Base.Text.{lower}
use cross_chain_mid_ware.Base.Result.{Result, ok, ok-injective, >>=-eq-ok}
use cross_chain_mid_ware.Service.Interface.{
  Arg, given, mistyped, Plugin, sim_btc, hc, usdt, btm, eth, any_plugin,
}
use cross_chain_mid_ware.Service.Query.{
  QueriedTrx, QueryRow, is_cache, clear_script_sigs, find_query, QueryOutcome,
  zchain_trans_query_trx,
}
use cross_chain_mid_ware.Service.Query.Laws.{
  Settled, mined-FirstMined, FirstMined-clear, is_cache-Settled, Settled-clear_script_sigs,
  IsAccepted, query_trx-IsAccepted,
}
use cross_chain_mid_ware.Service.Batch.{
  is_seen, batch_cache, Batch, BatchOutcome, add_queried, query_one, use_cached, query_ids,
  batch_answer, zchain_trans_query_trx_batch,
}

-- A result that is out of the pool of transactions that wait: of BTC and its kin, a transaction with
-- outputs that is not told to have no confirmations; of the others, what is settled.
abbrev pub Seen : Plugin → QueriedTrx → Type 0
Seen (sim_btc name) t = (t.has_vout ≡ true) × ((m : ℕ) → t.confirmations ≡ some m → 0 < m)
Seen p t = Settled p t

seen-HasSome :
    (v : Bool) (c : Option ℕ)
    → (v && is_seen c) ≡ true
    → (v ≡ true) × ((m : ℕ) → c ≡ some m → 0 < m)
seen-HasSome v none h = (ground (arith, h), λ m e. cc e)
seen-HasSome v (some n) h = (ground (arith, h), λ m e. ground (arith, h, e))

batch_cache-Seen :
    (p : Plugin) (t : QueriedTrx) → batch_cache p t ≡ true → Seen p (clear_script_sigs t)
unfolding batch_cache clear_script_sigs
batch_cache-Seen (sim_btc name) t h = seen-HasSome t.has_vout t.confirmations h
batch_cache-Seen usdt t h = cc h
batch_cache-Seen hc t h =
    let (v, m) = (mined-FirstMined t.has_vout t.vin).0 h in (v, FirstMined-clear t.vin m)
batch_cache-Seen btm t h = cc h
batch_cache-Seen eth t h = h

Settled-Seen : (p : Plugin) (t : QueriedTrx) → Settled p t → Seen p t
Settled-Seen (sim_btc name) t h = let (m, e, l) = h.1 in (h.0, λ k q. ground (arith, e, q, l))
Settled-Seen usdt t h = h
Settled-Seen hc t h = h
Settled-Seen btm t h = h
Settled-Seen eth t h = h

is_cache-Seen : (p : Plugin) (t : QueriedTrx) → is_cache p t ≡ true → Seen p (clear_script_sigs t)
is_cache-Seen p t h =
    Settled-Seen p (clear_script_sigs t)
      (Settled-clear_script_sigs p t ((is_cache-Settled p t).0 h))

module _ (sim_btc_plugin : List String) (query : Plugin → String → Result (Option QueriedTrx)) where
  -- The row is of a chain with a plug-in, and its result is one that does not wait in the pool.
  abbrev pub IsSeen : QueryRow → Type 0
  IsSeen = IsAccepted Seen sim_btc_plugin

  add_queried-IsSeen :
      (chain trxid : String) (p : Plugin) (t : Option QueriedTrx) (b : Batch)
      → any_plugin sim_btc_plugin chain chain ≡ some p
      → All IsSeen b.rows
      → All IsSeen (add_queried chain trxid p t b).rows
  unfolding add_queried
  add_queried-IsSeen chain trxid p none b h a = a
  add_queried-IsSeen chain trxid p (some t) b h a = elim (Bool-cases (batch_cache p t)) [
    | inl c ↦ rw c (All-append IsSeen b.rows _ a ((p, h, batch_cache-Seen p t c), tt))
    | inr c ↦ rw c a
  ]

  query_one-IsSeen :
      (chain trxid : String) (o : Option Plugin) (b c : Batch)
      → any_plugin sim_btc_plugin chain chain ≡ o
      → query_one sim_btc_plugin query chain trxid o b ≡ ok c
      → All IsSeen b.rows
      → All IsSeen c.rows
  unfolding query_one
  query_one-IsSeen chain trxid none b c h e a =
      subst (λ (q : Batch). All IsSeen q.rows) (ok-injective e) a
  query_one-IsSeen chain trxid (some p) b c h e a =
      let (t, h1, h2) = >>=-eq-ok (query p trxid) _ e in
      subst (λ (q : Batch). All IsSeen q.rows) (ok-injective h2)
        (add_queried-IsSeen chain trxid p t b h a)

  use_cached-IsSeen :
      (chain trxid : String) (r : Option QueryRow) (b c : Batch)
      → use_cached sim_btc_plugin query chain trxid r b ≡ ok c
      → All IsSeen b.rows
      → All IsSeen c.rows
  unfolding use_cached
  use_cached-IsSeen chain trxid (some r) b c e a =
      subst (λ (q : Batch). All IsSeen q.rows) (ok-injective e) a
  use_cached-IsSeen chain trxid none b c e a = query_one-IsSeen chain trxid _ b c refl e a

  query_ids-IsSeen :
      (chain : String) (ids : List String) (b c : Batch)
      → query_ids sim_btc_plugin query chain ids b ≡ ok c
      → All IsSeen b.rows
      → All IsSeen c.rows
  unfolding query_ids
  query_ids-IsSeen chain [] b c e a = subst (λ (q : Batch). All IsSeen q.rows) (ok-injective e) a
  query_ids-IsSeen chain (trxid ∷ ids) b c e a =
      let (b', h1, h2) =
        >>=-eq-ok (use_cached sim_btc_plugin query chain trxid (find_query chain trxid b.rows) b) _
          e in
      query_ids-IsSeen chain ids b' c h2 (use_cached-IsSeen chain trxid _ b b' h1 a)

  query_trx_batch-IsSeen :
      (chain : Arg String) (trxids : Arg (List String)) (rows : List QueryRow) (r : BatchOutcome)
      → zchain_trans_query_trx_batch sim_btc_plugin query chain trxids rows ≡ ok r
      → All IsSeen rows
      → All IsSeen r.1
  unfolding zchain_trans_query_trx_batch batch_answer
  query_trx_batch-IsSeen mistyped trxids rows r e a =
      subst (λ (q : BatchOutcome). All IsSeen q.1) (ok-injective e) a
  query_trx_batch-IsSeen (given chain) mistyped rows r e a =
      subst (λ (q : BatchOutcome). All IsSeen q.1) (ok-injective e) a
  query_trx_batch-IsSeen (given chain) (given trxids) rows r e a =
      let (b, h1, h2) =
        >>=-eq-ok
          (query_ids sim_btc_plugin query (lower chain) trxids
            (record { res_data = []; rows = rows }))
          _ e in
      subst (λ (q : BatchOutcome). All IsSeen q.1) (ok-injective h2)
        (query_ids-IsSeen (lower chain) trxids (record { res_data = []; rows = rows }) b h1 a)

  -- As long as the cache that queryTrans and queryTransBatch share holds only results of this kind,
  -- neither of them, when it does not raise, leaves anything else in it: of BTC and its kin,
  -- transactions with outputs that are not told to have no confirmations; of USDT, those with outputs
  -- and more than seven confirmations; of HC, those with outputs whose first input is not of block 0;
  -- of BTM, those with outputs; of ETH and its tokens, those with an input.
  pub queries-IsSeen :
      (chain : Arg String) (trxid : String) (trxids : Arg (List String)) (rows : List QueryRow)
      → All IsSeen rows
      → ((r : QueryOutcome)
          → zchain_trans_query_trx sim_btc_plugin query chain trxid rows ≡ ok r
          → All IsSeen r.1)
        × ((r : BatchOutcome)
            → zchain_trans_query_trx_batch sim_btc_plugin query chain trxids rows ≡ ok r
            → All IsSeen r.1)
  queries-IsSeen chain trxid trxids rows a = (
    λ r e. query_trx-IsAccepted sim_btc_plugin query Seen is_cache-Seen chain trxid rows r e a,
    λ r e. query_trx_batch-IsSeen chain trxids rows r e a,
  )
