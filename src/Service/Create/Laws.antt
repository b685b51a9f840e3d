-- ===== src/Service/Create/Laws.antt =====
-- When the service builds no transaction (service/sim_api.py).
use cross_chain_mid_ware.Base.{
  ℕ, ◌+◌, ◌<◌, ◌≡◌, ◌≢◌, ◌↔◌, refl, String, Bool, true, false, Option, none, some, List, map,
  str_eq, sum_by, Option-cases, inl, inr,
}
use cross_chain_mid_ware.Base.Text.{lower, upper}
use cross_chain_mid_ware.Base.Int.{ℤ}
use cross_chain_mid_ware.Base.Dict.{Dict}
use cross_chain_mid_ware.Base.Result.{Result, ok, err, ◌>>=◌}
use cross_chain_mid_ware.Wallet.Select.{TxOut}
use cross_chain_mid_ware.Wallet.Interface.{Vin, Node, Created, get_trx_out}
use cross_chain_mid_ware.Wallet.Outputs.{dest_amount}
use cross_chain_mid_ware.Wallet.SimBtc.{
  Plan, plan_vin, send_plan, stamp_trx, sim_btc_plan, sim_btc_create_transaction,
}
use cross_chain_mid_ware.Wallet.SimBtc.Payees.{sim_btc_plan-refuses}
use cross_chain_mid_ware.Service.Interface.{given, Response, answer, elem, utxo_plugin}
use cross_chain_mid_ware.Service.Create.{Backend, is_fast_of, plugin_create, create_for, create_trx}

-- The node builds whatever it is asked for.
abbrev pub Builds : Node → Type 0
Builds node = (vins : List Vin) (vouts : Dict ℤ) → node.create_raw vins vouts ≢ none

-- A plan is sent whenever there is one.
send_plan-none :
    (node : Node) (name : String) (p : Option Plan)
    → str_eq (upper name) "BCH" ≡ false
    → Builds node
    → (send_plan node name p ≡ ok none) ↔ (p ≡ none)
unfolding send_plan stamp_trx
send_plan-none node name none ne builds = (λ h. refl, λ h. refl)
send_plan-none node name (some p) ne builds =
    elim (Option-cases (node.create_raw (map plan_vin p.vin_need) p.vouts)) [
      | inl e ↦ absurd (builds (map plan_vin p.vin_need) p.vouts e)
      | inr (hex, e) ↦
          (λ h. absurd (cc (rw (send_plan, e, stamp_trx, ne) at h)), λ h. absurd (cc h))
    ]

abbrev told : String → Result (Option Created) → Result (Response (String × Option Created))
told chain r = r >>= λ created. ok (answer (chain, created))

answered-none :
    (chain : String) (r : Result (Option Created))
    → (told chain r ≡ ok (answer (chain, none))) ↔ (r ≡ ok none)
answered-none chain (err e) = (λ h. cc, λ h. cc)
answered-none chain (ok c) = (λ h. cc, λ h. cc)

-- For a coin of the first plug-in other than BCH, with the record "is_fast" set to any text but the
-- empty one, a fee above 0 and a node that builds whatever it is asked for, both handlers answer
-- with no transaction exactly when the sender's unspent outputs together do not cover the amounts
-- of dest_info and the fee.
pub create_trx-refuses :
    (b : Backend) (full_send : Bool) (chain from_addr : String) (dest_info : Dict ℕ)
    → elem (lower chain) b.sim_btc_plugin ≡ true
    → str_eq (upper (lower chain)) "BCH" ≡ false
    → is_fast_of b.is_fast_record ≡ true
    → 0 < (b.config (lower chain)).fee
    → Builds (b.node (lower chain))
    → (create_trx b full_send (given chain) from_addr dest_info ≡ ok (answer (lower chain, none)))
      ↔ (sum_by TxOut.amount (get_trx_out (b.node (lower chain)) from_addr)
          < dest_amount dest_info + (b.config (lower chain)).fee)
unfolding create_trx create_for plugin_create utxo_plugin sim_btc_create_transaction
create_trx-refuses b full_send chain from_addr dest_info known ne fast fee builds =
    let name = lower chain in
    let txout = get_trx_out (b.node name) from_addr in
    let plan = sim_btc_plan (b.config name) b.order from_addr dest_info true full_send txout in
    let sent = send_plan-none (b.node name) name plan ne builds in
    let refused =
      sim_btc_plan-refuses (b.config name) b.order from_addr dest_info full_send txout fee in
    let said = answered-none name (send_plan (b.node name) name plan) in
    rw (known, fast) (λ h. refused.0 (sent.0 (said.0 h)), λ h. said.1 (sent.1 (refused.1 h)))
