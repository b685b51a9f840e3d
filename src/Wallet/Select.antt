-- ===== src/Wallet/Select.antt =====
-- The choice of coins, which utils/sim_btc_utils.py, utils/hc_utils.py and utils/btm_utils.py write
-- out three times with other constants: above `many` unspent outputs a single one may do, and the
-- choice is topped up to `few` outputs, the smallest first. Amounts are counted in the smallest
-- unit of the coin, where the source rounds a float to 8 decimals after each step.
pub mod Laws
pub mod Enough
use cross_chain_mid_ware.Base.{
  ℕ, zero, suc, ◌+◌, ◌-◌, String, Bool, true, false, ◌&&◌, Option, none, some, List, [], ◌∷◌, ◌++◌,
  length, get_elem?, ltb, leb, ◌==◌, if◌then◌else◌,
}

-- An unspent output, as the collector's `Service.ListUnSpent` reports it.
pub record TxOut : Type 0 where
  pub amount : ℕ
  pub txid : String
  pub vout : ℕ
  pub script : String

-- `sum`, `vin_need` and `use_idx`.
pub record Selection : Type 0 where
  pub total : ℕ
  pub vin_need : List TxOut
  pub use_idx : List ℕ

abbrev pub nothing : Selection
nothing = record { total = 0; vin_need = []; use_idx = [] }

abbrev pub use_out : TxOut → ℕ → Selection → Selection
use_out x i s = record {
  total = s.total + x.amount;
  vin_need = s.vin_need ++ x ∷ [];
  use_idx = s.use_idx ++ i ∷ [];
}

-- `sorted(txout, key=..., reverse=True)`: equal amounts stay in their order.
unfoldable pub insert_desc : TxOut → List TxOut → List TxOut
insert_desc x [] = x ∷ []
insert_desc x (y ∷ ys) = if ltb x.amount y.amount then y ∷ insert_desc x ys else x ∷ y ∷ ys

unfoldable pub sort_desc : List TxOut → List TxOut
unfolding insert_desc
sort_desc [] = []
sort_desc (x ∷ xs) = insert_desc x (sort_desc xs)

-- `i in use_idx`
abbrev pub contains : ℕ → List ℕ → Bool
contains i [] = false
contains i (j ∷ js) = if j == i then true else contains i js

-- The output at `bak_index`, if there is one.
abbrev pub use_backup : Option (ℕ × TxOut) → Selection → Selection
use_backup none s = s
use_backup (some (i, x)) s = use_out x i s

-- The first loop, from index `i`: `bak_index` (with its output) moves on while one output covers
-- the need, and is used once the next output does not.
pub find_backup :
    ℕ → List TxOut → ℕ → Option (ℕ × TxOut) → Selection → Option (ℕ × TxOut) × Selection
find_backup need [] i bak s = (bak, s)
find_backup need (x ∷ xs) i bak s =
    if leb need x.amount
    then find_backup need xs (i + 1) (some (i, x)) s
    else (bak, use_backup bak s)

-- The second loop, from index `i`.
pub accumulate : ℕ → List TxOut → ℕ → Selection → Selection
accumulate need [] i s = s
accumulate need (x ∷ xs) i s =
    if leb need s.total then s else accumulate need xs (i + 1) (use_out x i s)

abbrev pub use_unless_used : ℕ → Option TxOut → Selection → Selection
use_unless_used i none s = s
use_unless_used i (some x) s = if contains i s.use_idx then s else use_out x i s

-- The third loop: `rounds` more rounds from round `i`. Its index stays in range, as there are more
-- outputs than rounds.
pub top_up : List TxOut → ℕ → ℕ → Selection → Selection
top_up txout zero i s = s
top_up txout (suc rounds) i s =
    let cur_idx = length txout - i - 1 in
    top_up txout rounds (i + 1) (use_unless_used cur_idx (get_elem? txout cur_idx) s)

abbrev pub second_loop : ℕ → List TxOut → Option (ℕ × TxOut) × Selection → Selection
second_loop need txout (none, s) = accumulate need txout 0 s
second_loop need txout (some _, s) = s

abbrev pub third_loop : ℕ → ℕ → List TxOut → Selection → Selection
third_loop many few txout s =
    if ltb many (length txout) && ltb (length s.vin_need) few
    then top_up txout (few - length s.vin_need) 0 s
    else s

abbrev pub first_loop : ℕ → ℕ → List TxOut → Option (ℕ × TxOut) × Selection
first_loop many need txout =
    if ltb many (length txout) then find_backup need txout 0 none nothing else (none, nothing)

unfoldable pub select : ℕ → ℕ → ℕ → List TxOut → Selection
unfolding find_backup accumulate top_up
select many few need txout =
    third_loop many few txout (second_loop need txout (first_loop many need txout))
