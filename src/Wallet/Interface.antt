-- ===== src/Wallet/Interface.antt =====
-- What a plug-in of utils/ asks of the coin's wallet node and of the collector service: the
-- answers to its JSON-RPC requests, as a parameter.
use cross_chain_mid_ware.Base.{ℕ, String, Option, none, some, List, [], ◌∷◌}
use cross_chain_mid_ware.Base.Int.{ℤ}
use cross_chain_mid_ware.Base.Dict.{Dict}
use cross_chain_mid_ware.Wallet.Select.{TxOut}

-- An input of a `createrawtransaction` request; `sequence` is set by one plug-in only.
pub record Vin : Type 0 where
  pub txid : String
  pub vout : ℕ
  pub script : String
  pub sequence : Option ℕ

-- An input of a decoded transaction; the node gives no `amount`.
pub record DecodedVin : Type 0 where
  pub txid : String
  pub vout : ℕ
  pub amount : Option ℕ

pub record Trx : Type 0 where
  pub vin : List DecodedVin
  pub body : String

-- `none` stands for a result that is null.
pub record Node : Type 0 where
  pub list_unspent : String → Option (List (Option TxOut))
  pub create_raw : List Vin → Dict ℤ → Option String
  pub decode_raw : String → Option Trx

-- The fee configuration of a coin, `config["fee"]` and the others.
pub record FeeConfig : Type 0 where
  pub fee : ℕ
  pub per_fee : ℕ
  pub vin_size : ℕ
  pub vout_size : ℕ

-- What a plug-in answers; `trx` is none where the source has the text "".
pub record Created : Type 0 where
  pub trx : Option Trx
  pub hex : String
  pub script : List String

-- The outputs of an address, those that are null left out.
unfoldable pub drop_null : List (Option TxOut) → List TxOut
drop_null [] = []
drop_null (none ∷ xs) = drop_null xs
drop_null (some x ∷ xs) = x ∷ drop_null xs

unfoldable pub get_trx_out : Node → String → List TxOut
unfolding drop_null
get_trx_out node addr = elim (node.list_unspent addr) [ none ↦ [] | some xs ↦ drop_null xs ]
