-- ===== src/Service/Create.antt =====
-- `Zchain.Trans.createTrx` and `createFullSendTrx` (service/sim_api.py): a transaction is built by
-- the plug-in of the chain.
pub mod Laws
use cross_chain_mid_ware.Base.{
  ℕ, String, Bool, true, false, not, Option, none, some, List, [], ◌∷◌, str_eq, if◌then◌else◌,
}
use cross_chain_mid_ware.Base.Text.{lower}
use cross_chain_mid_ware.Base.Int.{ℤ}
use cross_chain_mid_ware.Base.Dict.{Dict, lookup}
use cross_chain_mid_ware.Base.DictOrder.{DictOrder}
use cross_chain_mid_ware.Base.Result.{Result, ok, err, ◌>>=◌}
use cross_chain_mid_ware.Wallet.Interface.{FeeConfig, Node, Created}
use cross_chain_mid_ware.Wallet.SimBtc.{sim_btc_create_transaction}
use cross_chain_mid_ware.Service.Interface.{
  Arg, given, mistyped, Response, answer, mismatched_parameter_type, invalid_chainid_type, Plugin,
  sim_btc, hc, usdt, btm, eth, utxo_plugin,
}

-- `bool(record["value"])` of the record "is_fast", a text: any but the empty one counts.
unfoldable pub is_fast_of : Option String → Bool
is_fast_of none = false
is_fast_of (some value) = not (str_eq value "")

-- What the service has at hand: a coin's configuration and node, and what the plug-ins of the other
-- coins return.
pub record Backend : Type 0 where
  pub sim_btc_plugin : List String
  pub config : String → FeeConfig
  pub node : String → Node
  pub order : DictOrder ℤ
  pub create_other : Plugin → String → Dict ℕ → Result (Option Created)
  pub is_fast_record : Option String

unfoldable pub plugin_create : Backend → Plugin → String → Dict ℕ → Bool → Result (Option Created)
plugin_create b (sim_btc name) from_addr dest_info full_send =
    sim_btc_create_transaction (b.config name) b.order (b.node name) name from_addr dest_info
      (is_fast_of b.is_fast_record) full_send
plugin_create b p from_addr dest_info full_send = b.create_other p from_addr dest_info

-- A plug-in returns "" where it builds none, and never {}: the test for {} does not apply.
unfoldable pub create_for :
    Backend
    → String
    → Option Plugin
    → String
    → Dict ℕ
    → Bool
    → Result (Response (String × Option Created))
create_for b chain none from_addr dest_info full_send = ok (invalid_chainid_type chain)
create_for b chain (some p) from_addr dest_info full_send =
    plugin_create b p from_addr dest_info full_send >>= λ created. ok (answer (chain, created))

-- Both handlers, which differ in the last argument.
unfoldable pub create_trx :
    Backend → Bool → Arg String → String → Dict ℕ → Result (Response (String × Option Created))
create_trx b full_send mistyped from_addr dest_info =
    ok (mismatched_parameter_type "chainId" "STRING")
create_trx b full_send (given chain) from_addr dest_info =
    create_for b (lower chain) (utxo_plugin b.sim_btc_plugin (lower chain)) from_addr dest_info
      full_send

unfoldable pub zchain_trans_create_trx :
    Backend → Arg String → String → Dict ℕ → Result (Response (String × Option Created))
zchain_trans_create_trx b = create_trx b false

unfoldable pub zchain_trans_create_full_send_trx :
    Backend → Arg String → String → Dict ℕ → Result (Response (String × Option Created))
zchain_trans_create_full_send_trx b = create_trx b true
