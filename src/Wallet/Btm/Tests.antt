-- ===== src/Wallet/Btm/Tests.antt =====
-- Runs of the plug-in of BTM (utils/btm_utils.py), and the theorem about it applied to one.
use cross_chain_mid_ware.Base.{
  ℕ, ◌≡◌, ◌≤◌, refl, String, true, none, some, List, [], ◌∷◌, length, sum_by,
}
use cross_chain_mid_ware.Base.Dict.{Dict, has_key, insert, add_to}
use cross_chain_mid_ware.Base.Result.{ok}
use cross_chain_mid_ware.Wallet.Select.{TxOut}
use cross_chain_mid_ware.Wallet.Outputs.{dest_amount}
use cross_chain_mid_ware.Wallet.Interface.{drop_null}
use cross_chain_mid_ware.Wallet.Btm.{
  no_status, refused, success, BtmNode, BtmPlan, btm_plan, second_change, btm_create_transaction,
  btm_get_balance,
}
use cross_chain_mid_ware.Wallet.Btm.Laws.{IsBtmPaid, btm_plan-IsPaid}

abbrev coin : String → ℕ → TxOut
coin txid amount = record { amount = amount; txid = txid; vout = 0; script = "0014" }

abbrev coins : List TxOut
coins = coin "b" 40000000 ∷ coin "a" 60000000 ∷ []

abbrev node : BtmNode
node = record {
  list_unspent = λ addr. some (some (coin "b" 40000000) ∷ none ∷ some (coin "a" 60000000) ∷ []);
  get_balance = λ addr. some 100000000;
  get_block_height = some 7;
  get_trx_block_height = λ id. some 6;
  get_trx = λ h id. some id;
  create_multisig = λ pubs n. some "bm1";
  build_transaction =
      λ vins vouts. some (record { est_fee = some 500000; raw_transaction = some "07" });
  validate_address = λ addr. success true;
  submit_transaction = λ trx. refused;
  decode_raw_transaction = λ hex. success "decoded";
  estimate_transaction_gas = λ template. no_status;
}

abbrev dest : Dict ℕ
dest = ("payee", 90000000) ∷ []

abbrev planned : BtmPlan
planned = record {
  vin_need = coin "a" 60000000 ∷ coin "b" 40000000 ∷ [];
  vouts = ("payee", 90000000) ∷ ("sender", 1) ∷ [];
}

abbrev settled : BtmPlan
settled = record planned { vouts = ("payee", 90000000) ∷ ("sender", 9450001) ∷ [] }

plan_run : btm_plan 10000000 "sender" dest coins ≡ some planned
unfolding btm_plan has_key insert
plan_run = refl

change_run : second_change 10000000 "sender" 500000 planned ≡ some settled
unfolding second_change add_to
change_run = refl

created_run :
    btm_create_transaction 10000000 node "sender" dest
    ≡ ok (some (record { trx = some "decoded"; hex = "07"; script = "0014" ∷ "0014" ∷ [] }))
unfolding btm_create_transaction drop_null has_key insert add_to
created_run = refl

balance_run : btm_get_balance node "sender" ≡ "1.00000000"
unfolding btm_get_balance
balance_run = refl

btm_plan-IsPaid_example :
    (length settled.vin_need ≤ 8)
    × IsBtmPaid
        (sum_by TxOut.amount settled.vin_need)
        (dest_amount dest)
        10000000
        500000
        "sender"
        dest
        settled.vouts
btm_plan-IsPaid_example =
    btm_plan-IsPaid 10000000 500000 "sender" dest coins planned settled plan_run change_run
