-- ===== src/Wallet/Btm.antt =====
-- utils/btm_utils.py: the plug-in of BTM. A transaction is built twice: with the configured fee, to
-- learn the estimated one, and then with the estimated fee and a tenth. Amounts are whole numbers of
-- NEU, to which the source brings the amounts of all types; `int(fee * 1.1)` on its floats is
-- `fee * 11 / 10` for every fee below 2 ^ 50. The node and the collector service are parameters.
pub mod Laws
pub mod Tests
use cross_chain_mid_ware.Base.{
  ℕ, ◌+◌, ◌-◌, ◌*◌, ◌/◌, String, Bool, true, false, ◌||◌, Option, none, some, List, [], ◌∷◌, map,
  length, ltb, leb, ◌==◌, if◌then◌else◌,
}
use cross_chain_mid_ware.Base.Dict.{Dict, lookup, insert, has_key, add_to}
use cross_chain_mid_ware.Base.Result.{
  Result, ok, err, rpc_error, key_error, type_error, ◌>>=◌, from_option,
}
use cross_chain_mid_ware.Collector.Amount.{to_btm_precision_str}
use cross_chain_mid_ware.Wallet.Select.{TxOut, Selection, select, sort_desc}
use cross_chain_mid_ware.Wallet.Interface.{drop_null}
use cross_chain_mid_ware.Wallet.Outputs.{dest_amount}

-- An answer of the wallet node: without a status, with the status "success", or with another one.
pub data Reply {ℓ} (A : Type ℓ) : Type ℓ where
  no_status refused : Reply A
  success : A → Reply A

-- What the methods of the plug-in make of it; without a status they return nothing.
unfoldable pub reply {ℓ} : {A : Type ℓ} → Reply A → Result (Option A)
reply no_status = ok none
reply refused = err rpc_error
reply (success a) = ok (some a)

-- An input, with what is signed for it.
pub record BtmVin : Type 0 where
  pub txid : String
  pub vout : ℕ
  pub script : String
  pub value : ℕ

-- The answer of `Service.BuildTransaction`.
pub record Template : Type 0 where
  pub est_fee : Option ℕ
  pub raw_transaction : Option String

pub record BtmNode : Type 0 where
  pub list_unspent : String → Option (List (Option TxOut))
  pub get_balance : String → Option ℕ
  pub get_block_height : Option ℕ
  pub get_trx_block_height : String → Option ℕ
  pub get_trx : ℕ → String → Option String
  pub create_multisig : List String → ℕ → Option String
  pub build_transaction : List BtmVin → Dict ℕ → Option Template
  pub validate_address : String → Reply Bool
  pub submit_transaction : String → Reply String
  pub decode_raw_transaction : String → Reply String
  pub estimate_transaction_gas : String → Reply ℕ

unfoldable pub btm_get_trx_out : BtmNode → String → List TxOut
btm_get_trx_out node addr = elim (node.list_unspent addr) [ none ↦ [] | some xs ↦ drop_null xs ]

unfoldable pub btm_get_balance : BtmNode → String → String
unfolding to_btm_precision_str
btm_get_balance node addr = elim (node.get_balance addr) [
  | none ↦ "0"
  | some v ↦ to_btm_precision_str v
]

unfoldable pub btm_get_block_height : BtmNode → ℕ
btm_get_block_height node = elim node.get_block_height [ none ↦ 0 | some h ↦ h ]

-- none where the source returns "".
unfoldable pub btm_get_transaction : BtmNode → String → Option String
btm_get_transaction node trxid = elim (node.get_trx_block_height trxid) [
  | none ↦ none
  | some h ↦ node.get_trx h trxid
]

unfoldable pub btm_create_multisig : BtmNode → List String → ℕ → Result String
btm_create_multisig node pubs count = from_option rpc_error (node.create_multisig pubs count)

unfoldable pub btm_validate_address : BtmNode → String → Result (Option Bool)
unfolding reply
btm_validate_address node addr = reply (node.validate_address addr)

unfoldable pub btm_broadcaset_trx : BtmNode → String → Result (Option String)
unfolding reply
btm_broadcaset_trx node trx = reply (node.submit_transaction trx)

unfoldable pub btm_decode_hex_transaction : BtmNode → String → Result (Option String)
unfolding reply
btm_decode_hex_transaction node hex = reply (node.decode_raw_transaction hex)

unfoldable pub btm_estimate_transaction_gas : BtmNode → String → Result (Option ℕ)
unfolding reply
btm_estimate_transaction_gas node template = reply (node.estimate_transaction_gas template)

-- What is chosen before anything is asked of the node.
pub record BtmPlan : Type 0 where
  pub vin_need : List TxOut
  pub vouts : Dict ℕ

-- The change that the configured fee leaves. Where there is none, one unit keeps the place of the
-- output that the rest of the fee goes to.
unfoldable pub first_change : String → ℕ → Dict ℕ → Dict ℕ
first_change from_addr needchange vouts =
    if needchange == 0
    then (if has_key from_addr vouts then vouts else insert from_addr 1 vouts)
    else add_to from_addr needchange vouts

-- none where the source returns "": no outputs, more than eight inputs, or too little.
unfoldable pub btm_plan : ℕ → String → Dict ℕ → List TxOut → Option BtmPlan
unfolding select sort_desc dest_amount first_change
btm_plan fee from_addr dest_info txout =
    let amount = dest_amount dest_info in
    let s = select 20 6 (amount + fee) (sort_desc txout) in
    if length txout == 0 || ltb 8 (length s.vin_need) || ltb s.total (amount + fee)
    then none
    else some (record {
      vin_need = s.vin_need;
      vouts = first_change from_addr (s.total - amount - fee) dest_info;
    })

-- The estimated fee and a tenth.
abbrev pub raised_fee : ℕ → ℕ
raised_fee est_fee = est_fee * 11 / 10

-- What the configured fee has over it goes to the sender; none where it has not.
unfoldable pub second_change : ℕ → String → ℕ → BtmPlan → Option BtmPlan
second_change fee from_addr est_fee p =
    if leb (fee * 10) (est_fee * 11)
    then none
    else some (record p { vouts = add_to from_addr (fee - raised_fee est_fee) p.vouts })

abbrev pub btm_vin : TxOut → BtmVin
btm_vin x = record { txid = x.txid; vout = x.vout; script = x.script; value = x.amount }

pub record BtmCreated : Type 0 where
  pub trx : Option String
  pub hex : String
  pub script : List String

-- `btm_build_spend_utxo_transaction`; what follows takes its answer apart.
unfoldable pub build : BtmNode → BtmPlan → Result Template
build node p = from_option type_error (node.build_transaction (map btm_vin p.vin_need) p.vouts)

unfoldable pub btm_finish : BtmNode → BtmPlan → Result (Option BtmCreated)
unfolding build btm_decode_hex_transaction
btm_finish node p = build node p >>= λ template. elim template.raw_transaction [
  | none ↦ ok none
  | some hex ↦ btm_decode_hex_transaction node hex >>= λ trx.
      ok (some (record { trx = trx; hex = hex; script = map TxOut.script p.vin_need }))
]

unfoldable pub btm_send : BtmNode → Option BtmPlan → Result (Option BtmCreated)
unfolding btm_finish
btm_send node none = ok none
btm_send node (some p) = btm_finish node p

-- With the plan for the configured fee.
unfoldable pub btm_estimate : ℕ → BtmNode → String → Option BtmPlan → Result (Option BtmPlan)
unfolding build second_change
btm_estimate fee node from_addr none = ok none
btm_estimate fee node from_addr (some p) = build node p >>= λ template.
    from_option type_error template.est_fee >>= λ est_fee.
    ok (second_change fee from_addr est_fee p)

-- The answer; none where the source returns "".
unfoldable pub btm_create_transaction : ℕ → BtmNode → String → Dict ℕ → Result (Option BtmCreated)
unfolding btm_plan btm_get_trx_out btm_estimate btm_send
btm_create_transaction fee node from_addr dest_info =
    let plan = btm_plan fee from_addr dest_info (btm_get_trx_out node from_addr) in
    btm_estimate fee node from_addr plan >>= btm_send node
