-- ===== src/Eth/Sync/Laws.antt =====
-- The rounds: their bounds, that they come to an end, and what a failure does to them.
use cross_chain_mid_ware.Base.{
  ℕ, zero, suc, ◌+◌, ◌-◌, ◌≤◌, ◌<◌, ◌≡◌, ◌≢◌, refl, ap, ◌∙◌, sym, String, List, arith, leb, ◌==◌,
  Bool-cases, inl, inr,
}
use cross_chain_mid_ware.Base.Result.{Result, ok, err, Error, Result-cases}
use cross_chain_mid_ware.Eth.Node.{Node}
use cross_chain_mid_ware.Eth.Rows.{Db}
use cross_chain_mid_ware.Eth.Sync.{
  Round, next_round, sync_block_per_round, State, run_round, save, out_of_fuel, sync, collect_block,
  collect_data_cb, eth_trx_store,
}

-- Below the node's latest block a round begins with the last block of the round before, makes
-- progress, stops at the latest block at most, and takes at most 1001 blocks.
pub next_round-InRange :
    (latest last : ℕ)
    → last < latest
    → let r = next_round latest last in
      (r.sync_start ≡ last)
      × (last < r.sync_end)
      × (r.sync_end ≤ latest)
      × (r.sync_end + 1 - r.sync_start ≤ sync_block_per_round + 1)
unfolding next_round
next_round-InRange latest last h = ground arith

pub start-latest :
    (latest last : ℕ) → ((next_round latest last).sync_start == latest) ≡ leb latest last
unfolding next_round
start-latest latest last = ground arith

-- Every round below the latest block makes progress, so as many rounds as there are blocks are enough,
-- and one more for the test: whatever the node answers, as long as its latest block is
-- never above a bound, the loop ends by itself.
pub sync-ends :
    (node : ℕ → Node) (bound : ℕ)
    → ((k n : ℕ) → (node k).get_block_height ≡ ok n → n ≤ bound)
    → (fuel k : ℕ) (s : State) → bound < fuel + s.last_sync_block_num
    → 0 < fuel
    → (sync fuel node k s).1 ≢ out_of_fuel
unfolding sync run_round
sync-ends node bound within zero k s h pos = absurd (omega arith)
sync-ends node bound within (suc fuel) k s h pos = elim (Result-cases (node k).get_block_height) [
  | inl (raised, e) ↦ rw (sync, e) (λ p. cc p)
  | inr (latest, e) ↦
      let low = within k latest e in
      let start = start-latest latest s.last_sync_block_num in
      elim (Bool-cases (leb latest s.last_sync_block_num)) [
        | inl t ↦ rw (sync, e, start, t) (λ p. cc p)
        | inr t ↦
            let (_, more, top, _) =
              next_round-InRange latest s.last_sync_block_num (ground (arith, t)) in
            rw (sync, e, start, t)
              (sync-ends node bound within fuel (k + 1)
                (run_round (node k) (next_round latest s.last_sync_block_num) s)
                (omega (arith, more, top, low)) (omega (arith, more, top, low)))
      ]
]

pub collect_step :
    (node : Node) (c n : ℕ) (db : Db) (r : Result (List String × List String))
    → collect_block node n ≡ r
    → collect_data_cb node (suc c) n db ≡ (elim r as (λ _. Db) [
      | err raised ↦ db
      | ok ids ↦ collect_data_cb node c (n + 1) (eth_trx_store node ids.0 ids.1 db)
    ])
unfolding collect_data_cb
collect_step node c n db r h =
    ap
      (λ (x : Result (List String × List String)). elim x as (λ _. Db) [
        | err raised ↦ db
        | ok ids ↦ collect_data_cb node c (n + 1) (eth_trx_store node ids.0 ids.1 db)
      ])
      h

-- A block that cannot be collected ends the blocks of its round.
collect_data_cb-failed :
    (node : Node) (a c n m : ℕ) (raised : Error) (db : Db)
    → a < c
    → m ≡ n + a
    → collect_block node m ≡ err raised
    → collect_data_cb node c n db ≡ collect_data_cb node a n db
unfolding collect_data_cb
collect_data_cb-failed node a zero n m raised db lt e h = absurd (omega arith)
collect_data_cb-failed node zero (suc c) n m raised db lt e h =
    let e' : m ≡ n = omega arith in
    collect_step node c n db _ (ap (collect_block node) (sym e') ∙ h)
collect_data_cb-failed node (suc a) (suc c) n m raised db lt e h =
    elim (Result-cases (collect_block node n)) [
      | inl (other, eq) ↦ collect_step node c n db _ eq ∙ sym (collect_step node a n db _ eq)
      | inr (ids, eq) ↦
          collect_step node c n db _ eq
          ∙ collect_data_cb-failed node a c (n + 1) m raised _ (omega arith) (omega arith) h
          ∙ sym (collect_step node a n db _ eq)
    ]

-- A block of a round that cannot be collected takes the rest of the round with it: what is stored is
-- what the blocks before it leave, and yet the end of the round is saved.
pub run_round-failed :
    (node : Node) (r : Round) (k : ℕ) (raised : Error) (s : State)
    → r.sync_start ≤ k
    → k ≤ r.sync_end
    → collect_block node k ≡ err raised
    → let stored = collect_data_cb node (k - r.sync_start) r.sync_start s.db in
      run_round node r s ≡ record {
        db = record stored { syncblocknum = save r.sync_end stored.syncblocknum };
        last_sync_block_num = r.sync_end;
      }
unfolding run_round
run_round-failed node r k raised s lo hi h =
    let e =
      collect_data_cb-failed node (k - r.sync_start) (r.sync_end + 1 - r.sync_start) r.sync_start k
        raised s.db (omega arith) (omega arith) h in
    rw e refl
