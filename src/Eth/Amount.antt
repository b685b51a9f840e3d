-- ===== src/Eth/Amount.antt =====
-- `TurnAmountFromEth` (eth_data_collector/collector_app.py, and again in utils/eth_utils.py): the
-- decimal notation of a number of units, 10 ^ precision of which are a coin.
pub mod RoundTrip
use Prim.Native.String.{String}
use cross_chain_mid_ware.Base.{ℕ, ◌-◌, leb, str_eq, if◌then◌else◌}
use cross_chain_mid_ware.Base.Text.{len, zeros, prefix, suffix, rstrip_zeros, ◌<>◌}

unfoldable pub turn_amount_from_eth : String → ℕ → String
unfolding len zeros prefix suffix rstrip_zeros
turn_amount_from_eth source precision =
    let whole = len source - precision in
    let amount = rstrip_zeros source in
    let fraction = rstrip_zeros (suffix whole source) in
    if leb (len source) precision
    then "0." <> (zeros (precision - len source) <> (if str_eq amount "" then source else amount))
    else prefix whole source <> ((if str_eq fraction "" then "" else ".") <> fraction)
