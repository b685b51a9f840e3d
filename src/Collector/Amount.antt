-- ===== src/Collector/Amount.antt =====
-- The texts of amounts in the records: btc_data_collector/collect_btc_block.py writes "%.8f" of a
-- number of coins, and for BTM the text that `to_btm_precision_str` cuts out of a whole number.
pub mod RoundTrip
use Prim.Native.String.{String}
use cross_chain_mid_ware.Base.{ℕ, ◌*◌, ◌-◌, ◌/◌, ◌%◌, ◌^◌, leb, if◌then◌else◌}
use cross_chain_mid_ware.Base.Double.{nearest, round_even}
use cross_chain_mid_ware.Base.Text.{show, len, zeros, prefix, suffix, ◌<>◌}

-- A number of units of 1e-8, in the decimal notation of coins.
unfoldable pub precision_str : String → String
unfolding len zeros prefix suffix
precision_str s =
    if leb (len s) 8
    then "0." <> zeros (8 - len s) <> s
    else prefix (len s - 8) s <> "." <> suffix (len s - 8) s

-- The nested function of `collect_pretty_transaction_btm`.
unfoldable pub to_btm_precision_str : ℕ → String
unfolding precision_str show
to_btm_precision_str v = precision_str (show v)

-- The whole number of units that "%.8f" prints for the double nearest to `v` units of 1e-8 of a coin.
unfoldable pub printed_units : ℕ → ℕ
printed_units v = let a = nearest v 100000000 in round_even (a.0 * 100000000) a.1

-- A number of units in the decimal notation of coins, eight digits behind the point.
unfoldable pub eight_decimals : ℕ → String
unfolding show zeros len
eight_decimals v =
    let cents = show (v % 10 ^ 8) in show (v / 10 ^ 8) <> "." <> zeros (8 - len cents) <> cents

-- "%.8f" of `v` units of 1e-8, held as the double nearest to them. A single output's value is held
-- so; a sum of several may be further away, by a rounding of the float for each term.
unfoldable pub fixed8 : ℕ → String
unfolding printed_units eight_decimals
fixed8 v = eight_decimals (printed_units v)
