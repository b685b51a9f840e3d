-- ===== src/Wallet/Omni/Tests.antt =====
-- Runs of the plug-in of USDT (utils/usdt_utils.py), and the theorems about it applied to them.
use cross_chain_mid_ware.Base.{
  ℕ, ◌≡◌, refl, String, none, some, List, [], ◌∷◌, length, sum_by, arith,
}
use cross_chain_mid_ware.Base.Dict.{Dict, insert, lookup}
use cross_chain_mid_ware.Base.Double.{nearest, round_even, grow, shrink}
use cross_chain_mid_ware.Base.Result.{ok}
use cross_chain_mid_ware.Base.Text.{len, zeros}
use cross_chain_mid_ware.Base.Text.Hex.{show_hex}
use cross_chain_mid_ware.Wallet.Select.{TxOut, sort_desc, insert_desc}
use cross_chain_mid_ware.Wallet.Outputs.{dest_amount}
use cross_chain_mid_ware.Wallet.Interface.{FeeConfig, drop_null}
use cross_chain_mid_ware.Wallet.SimBtc.{float_to_int, in_units}
use cross_chain_mid_ware.Wallet.Omni.{
  text, number, OmniNode, OmniPlan, omni_vouts, omni_size_fee, omni_payload, omni_plan,
  omni_create_transaction,
}
use cross_chain_mid_ware.Wallet.Omni.Laws.{IsOmniPaid, omni_plan-IsOmniPaid}
use cross_chain_mid_ware.Wallet.Omni.Payload.{field, omni_payload-fields}

abbrev coin : String → ℕ → TxOut
coin txid amount = record { amount = amount; txid = txid; vout = 0; script = "a914" }

abbrev config : FeeConfig
config = record { fee = 100000; per_fee = 10000; vin_size = 300; vout_size = 40 }

abbrev coins : List TxOut
coins = coin "b" 546 ∷ coin "a" 250000 ∷ []

abbrev dest : Dict ℕ
dest = ("payee", 150000000) ∷ []

abbrev planned : OmniPlan
planned = record {
  vin_need = coin "a" 250000 ∷ coin "b" 546 ∷ [];
  vouts = ("payee", 546) ∷ ("sender", 240000) ∷ [];
  payload = "000000000000001f0000000008f0d180";
}

-- The coin of 546 pays for the payee's output. The balance of "0" is no obstacle.
plan_run : omni_plan config 31 "sender" dest (text "0") coins ≡ some planned
unfolding omni_plan insert lookup sort_desc insert_desc len zeros show_hex dest_amount float_to_int
    in_units nearest round_even grow shrink
plan_run = refl

number_run : omni_plan config 31 "sender" dest (number 0) coins ≡ none
unfolding omni_plan insert dest_amount
number_run = refl

abbrev node : OmniNode
node = record {
  list_unspent = λ addr. some (some (coin "b" 546) ∷ none ∷ some (coin "a" 250000) ∷ []);
  get_balance = λ addr. none;
  create_raw = λ vins vouts. some "0100";
  create_opreturn = λ hex payload. some "0101";
  decode_raw = λ hex. some "decoded";
  get_raw = λ trxid. none;
  omni_transaction = λ trxid. none;
  combine_raw = λ signatures. none;
}

created_run :
    omni_create_transaction config 31 node "sender" dest
    ≡ some (record { trx = some "decoded"; hex = "0101"; script = "a914" ∷ "a914" ∷ [] })
unfolding omni_create_transaction drop_null insert lookup sort_desc insert_desc len zeros show_hex
    dest_amount
created_run = refl

-- With a configured fee just above the one for the size, there is no output for the rest of the coin.
abbrev close : FeeConfig
close = record config { fee = 10500 }

lost_run :
    omni_plan close 31 "sender" dest (text "9") (coin "a" 250000 ∷ [])
    ≡ some (record {
      vin_need = coin "a" 250000 ∷ [];
      vouts = ("payee", 546) ∷ [];
      payload = "000000000000001f0000000008f0d180";
    })
unfolding omni_plan insert lookup sort_desc insert_desc len zeros show_hex dest_amount float_to_int
    in_units nearest round_even grow shrink
lost_run = refl

-- A coin of 546 units that the first loop needs already is an input twice.
twice_run :
    omni_plan
      (record config { fee = 20000 })
      31
      "sender"
      dest
      (text "9")
      (coin "b" 546 ∷ coin "a" 19600 ∷ [])
    ≡ some (record {
      vin_need = coin "a" 19600 ∷ coin "b" 546 ∷ coin "b" 546 ∷ [];
      vouts = ("payee", 546) ∷ [];
      payload = "000000000000001f0000000008f0d180";
    })
unfolding omni_plan insert lookup sort_desc insert_desc len zeros show_hex dest_amount float_to_int
    in_units nearest round_even grow shrink
twice_run = refl

omni_plan-IsOmniPaid_example :
    IsOmniPaid
      (sum_by TxOut.amount planned.vin_need)
      (omni_size_fee config (length planned.vin_need) (length (omni_vouts dest)))
      100000
      "sender"
      dest
      planned.vouts
omni_plan-IsOmniPaid_example =
    omni_plan-IsOmniPaid config 31 "sender" dest (text "0") coins planned (omega arith) plan_run

omni_payload-fields_example :
    let payload = omni_payload 31 150000000 in
    (field 0 4 payload ≡ ok 0)
    × (field 4 4 payload ≡ ok 0)
    × (field 8 8 payload ≡ ok 31)
    × (field 16 16 payload ≡ ok 150000000)
    × (len payload ≡ 32)
omni_payload-fields_example = omni_payload-fields 31 150000000 (omega arith) (omega arith)

-- An amount above 2 ^ 49 units that comes out one more.
large_run : float_to_int (in_units 3735106495073724) ≡ 3735106495073725
unfolding float_to_int in_units nearest round_even grow shrink
large_run = refl
