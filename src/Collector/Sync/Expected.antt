-- ===== src/Collector/Sync/Expected.antt =====
-- What the database should hold: the transfers of a chain's blocks, in order, worked out from the
-- chain alone, for the collector of btc_data_collector/collect_btc_block.py.
use mathlib.Core.Path.{subst, ap₂}
use mathlib.Core.List.{append-nil}
use cross_chain_mid_ware.Base.{
  ℕ, zero, suc, ◌≤◌, ◌≡◌, refl, ap, ◌∙◌, String, ◌&&◌, ◌||◌, List, [], ◌∷◌, ◌++◌, arith, str_eq,
  ◌==◌, All, Bool-cases, inl, inr, leb,
}
use cross_chain_mid_ware.Base.Text.{lower}
use cross_chain_mid_ware.Base.Result.{Result, ok, err, ok-injective, >>=-eq-ok}
use cross_chain_mid_ware.Collector.Record.{Transfer, Transfers}
use cross_chain_mid_ware.Collector.Store.{BlockInfo, remove_transfers}
use cross_chain_mid_ware.Collector.Store.Laws.{
  IsOf, below, below-append, below-IsOf_le, below-IsOf_lt, of_chain, of_chain-append, of_chain-IsOf,
  of_chain-remove_transfers,
}
use cross_chain_mid_ware.Collector.Sync.{no_transfers, collect_transactions}

-- Every transfer in the caches is of block `n` of the chain.
abbrev pub AllOf : String → ℕ → Transfers → Type 0
AllOf chain n c = All (IsOf chain n) c.deposits × All (IsOf chain n) c.withdraws

-- What a function that collects a transaction owes: it caches transfers of the block it is given.
abbrev pub Stamps : {Tx : Type 0} → String → (Tx → ℕ → Transfers → Result Transfers) → Type 0
Stamps {Tx} symbol collect_trx =
    (t : Tx) (n : ℕ) (c : Transfers) (c' : Transfers)
    → collect_trx t n c ≡ ok c'
    → AllOf (lower symbol) n c
    → AllOf (lower symbol) n c'

abbrev pub ok_or_empty : Result Transfers → Transfers
ok_or_empty (ok c) = c
ok_or_empty (err e) = no_transfers

-- The lists of the numbers below `n`, joined in order.
unfoldable pub joined_below : (ℕ → List Transfer) → ℕ → List Transfer
joined_below f zero = []
joined_below f (suc n) = joined_below f n ++ f n

module _ (chain : String) (f : ℕ → List Transfer) (rows : (k : ℕ) → All (IsOf chain k) (f k)) where
  below-joined_all : (n m : ℕ) → m ≤ n → below n (joined_below f m) ≡ joined_below f m
  unfolding joined_below below
  below-joined_all n zero h = refl
  below-joined_all n (suc m) h =
      below-append n (joined_below f m) (f m)
      ∙ ap₂ ◌++◌ (below-joined_all n m (omega arith))
          (below-IsOf_lt chain m n (f m) (omega arith) (rows m))

  -- Cutting off what is of block `n` or later leaves what is below `n`.
  pub below-joined_below : (n m : ℕ) → n ≤ m → below n (joined_below f m) ≡ joined_below f n
  unfolding joined_below below
  below-joined_below zero zero h = refl
  below-joined_below (suc n) zero h = absurd (omega arith)
  below-joined_below n (suc m) h = elim (Bool-cases (leb n m)) [
    | inl e ↦
        below-append n (joined_below f m) (f m)
        ∙ ap₂ ◌++◌ (below-joined_below n m (ground arith))
            (below-IsOf_le chain m n (f m) (ground arith) (rows m))
        ∙ append-nil (joined_below f n)
    | inr e ↦
        let same : n ≡ suc m = ground arith in
        rw same (below-joined_all (suc m) (suc m) (omega arith))
  ]

module _ {Tx : Type 0} (symbol : String) (fetch_block : ℕ → BlockInfo Tx)
    (collect_trx : Tx → ℕ → Transfers → Result Transfers) where
  -- The transfers of block `k`.
  abbrev pub transfers_at : ℕ → Transfers
  transfers_at k =
      ok_or_empty
        (collect_transactions symbol collect_trx (fetch_block k).transactions k no_transfers)

  collect_transactions-AllOf :
      (ts : List Tx) (n : ℕ) (c c' : Transfers)
      → Stamps symbol collect_trx
      → collect_transactions symbol collect_trx ts n c ≡ ok c'
      → AllOf (lower symbol) n c
      → AllOf (lower symbol) n c'
  unfolding collect_transactions
  collect_transactions-AllOf [] n c c' stamps h a =
      subst (AllOf (lower symbol) n) (ok-injective h) a
  collect_transactions-AllOf (t ∷ ts) n c c' stamps h a =
      elim (Bool-cases ((str_eq symbol "HC" || str_eq symbol "DOGE") && (n == 0))) [
        | inl e ↦ collect_transactions-AllOf ts n c c' stamps (rw e at h) a
        | inr e ↦
            let (m, h1, h2) = >>=-eq-ok (collect_trx t n c) _ (rw e at h) in
            collect_transactions-AllOf ts n m c' stamps h2 (stamps t n c m h1 a)
      ]

  ok_or_empty-AllOf :
      (n : ℕ) (r : Result Transfers)
      → ((c : Transfers) → r ≡ ok c → AllOf (lower symbol) n c)
      → AllOf (lower symbol) n (ok_or_empty r)
  ok_or_empty-AllOf n (ok c) h = h c refl
  ok_or_empty-AllOf n (err e) h = (tt, tt)

  pub transfers_at-AllOf :
      Stamps symbol collect_trx → (k : ℕ) → AllOf (lower symbol) k (transfers_at k)
  transfers_at-AllOf stamps k =
      ok_or_empty-AllOf k
        (collect_transactions symbol collect_trx (fetch_block k).transactions k no_transfers)
        (λ c h.
          collect_transactions-AllOf (fetch_block k).transactions k no_transfers c stamps h
            (tt, tt))

-- A table holds, of the chain, the lists of the numbers below `d`, in order.
abbrev pub Held : String → (ℕ → List Transfer) → ℕ → List Transfer → Type 0
Held chain f d rows = of_chain chain rows ≡ joined_below f d

module _ (chain : String) (f : ℕ → List Transfer) (rows : (k : ℕ) → All (IsOf chain k) (f k)) where
  pub Held-append :
      (d : ℕ) (ts new : List Transfer)
      → Held chain f d ts
      → new ≡ f d
      → Held chain f (suc d) (ts ++ new)
  unfolding joined_below
  Held-append d ts new h e =
      of_chain-append chain ts new
      ∙ ap₂ ◌++◌ h (ap (of_chain chain) e ∙ of_chain-IsOf chain d (f d) (rows d))

  pub Held-clear :
      (n d : ℕ) (ts : List Transfer)
      → n ≤ d
      → Held chain f d ts
      → Held chain f n (remove_transfers chain n ts)
  Held-clear n d ts le h =
      of_chain-remove_transfers chain n ts ∙ ap (below n) h ∙ below-joined_below chain f rows n d le
