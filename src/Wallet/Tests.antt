-- ===== src/Wallet/Tests.antt =====
-- Runs of the plug-ins of utils/ on small wallets, and the theorems about them applied there.
use mathlib.Core.List.Perm
use cross_chain_mid_ware.Base.{
  ℕ, ◌+◌, ◌≤◌, ◌<◌, ◌≡◌, ◌↔◌, refl, String, true, false, none, some, List, [], ◌∷◌, arith, sum_by,
}
use cross_chain_mid_ware.Base.Int.{ℤ, pos, ◌-ℤ◌}
use cross_chain_mid_ware.Base.Dict.{Dict, NodupKeys, has_key, lookup, insert}
use cross_chain_mid_ware.Base.DictOrder.{DictOrder}
use cross_chain_mid_ware.Wallet.Select.{TxOut, select, sort_desc}
use cross_chain_mid_ware.Wallet.Select.Laws.{IsSelection, select-IsSelection}
use cross_chain_mid_ware.Wallet.Select.Enough.{select-enough}
use cross_chain_mid_ware.Wallet.Interface.{FeeConfig}
use cross_chain_mid_ware.Wallet.Outputs.{dest_vouts, dest_amount, add_change}
use cross_chain_mid_ware.Wallet.SimBtc.{Plan, cal_fee, size_fee, settle, plan_from, sim_btc_plan}
use cross_chain_mid_ware.Wallet.SimBtc.Balance.{IsBalanced, sim_btc_plan-IsBalanced}
use cross_chain_mid_ware.Wallet.SimBtc.Payees.{sim_btc_plan-lookup, sim_btc_plan-refuses}
use cross_chain_mid_ware.Wallet.Hc.{add_signed_change, hc_cal_fee, hc_settle, hc_plan_from, hc_plan}
use cross_chain_mid_ware.Wallet.Hc.Balance.{IsPaid, hc_plan-IsPaid}

abbrev as_listed : DictOrder ℤ
as_listed = record { items = λ d. d; items-perm = λ d u. Perm.refl d }

abbrev config : FeeConfig
config = record { fee = 100000; per_fee = 10000; vin_size = 180; vout_size = 34 }

abbrev coin : String → ℕ → TxOut
coin txid amount = record { amount = amount; txid = txid; vout = 0; script = "76a9" }

abbrev coins : List TxOut
coins = coin "a" 700000 ∷ coin "b" 300000 ∷ coin "c" 9000 ∷ []

abbrev dest : Dict ℕ
dest = ("payee", 750000) ∷ []

abbrev planned : Plan
planned = record {
  vin_need = coin "a" 700000 ∷ coin "b" 300000 ∷ [];
  vouts = ("payee", pos 750000) ∷ ("sender", pos 240000) ∷ [];
}

dest-NodupKeys : NodupKeys dest
unfolding has_key
dest-NodupKeys = (refl, tt)

plan_run : sim_btc_plan config as_listed "sender" dest false false coins ≡ some planned
unfolding sim_btc_plan plan_from settle select sort_desc cal_fee size_fee dest_vouts dest_amount
    add_change lookup insert
plan_run = refl

select-IsSelection_example : IsSelection coins (select 8 5 850000 coins)
select-IsSelection_example = select-IsSelection 8 5 850000 coins

select-enough_example :
    (850000 ≤ (select 8 5 850000 coins).total) ↔ (850000 ≤ sum_by TxOut.amount coins)
select-enough_example = select-enough 8 5 850000 coins (omega arith)

sim_btc_plan-IsBalanced_example :
    IsBalanced 1000000 (cal_fee config as_listed false 2 1) planned.vouts
sim_btc_plan-IsBalanced_example =
    sim_btc_plan-IsBalanced config as_listed "sender" dest false false coins planned dest-NodupKeys
      plan_run

sim_btc_plan-lookup_example : lookup "payee" planned.vouts ≡ lookup "payee" (dest_vouts dest)
sim_btc_plan-lookup_example =
    sim_btc_plan-lookup config as_listed "sender" "payee" dest false coins planned refl plan_run

sim_btc_plan-refuses_example :
    (sim_btc_plan config as_listed "sender" dest true false coins ≡ none)
    ↔ (sum_by TxOut.amount coins < dest_amount dest + 100000)
sim_btc_plan-refuses_example =
    sim_btc_plan-refuses config as_listed "sender" dest false coins (omega arith)

abbrev hc_planned : Plan
hc_planned = record {
  vin_need = coin "a" 700000 ∷ coin "b" 300000 ∷ [];
  vouts = ("payee", pos 750000) ∷ ("sender", pos 240000) ∷ [];
}

hc_plan_run : hc_plan config "sender" dest coins ≡ some hc_planned
unfolding hc_plan hc_plan_from hc_settle hc_cal_fee add_signed_change select sort_desc dest_vouts
    dest_amount lookup insert ◌-ℤ◌
hc_plan_run = refl

hc_plan-IsPaid_example : IsPaid 1000000 (hc_cal_fee config 2 1) 100000 hc_planned.vouts
hc_plan-IsPaid_example = hc_plan-IsPaid config "sender" dest coins hc_planned hc_plan_run
