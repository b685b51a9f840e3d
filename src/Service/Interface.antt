-- ===== src/Service/Interface.antt =====
-- What the handlers of service/sim_api.py share: their arguments, their answers (utils/error_utils.py)
-- and the choice of a plug-in by the name of the chain.
use cross_chain_mid_ware.Base.{
  ℕ, String, Bool, true, false, ◌||◌, Option, none, some, List, [], ◌∷◌, str_eq, if◌then◌else◌,
}
use cross_chain_mid_ware.Base.Text.{has_text, ◌<>◌}

-- An argument of a request: of the type that the handler wants, or of another.
pub data Arg (A : Type 0) : Type 0 where
  given : A → Arg A
  mistyped : Arg A

-- What a handler returns, or the exception that it raises on what is no text.
pub data Response (A : Type 0) : Type 0 where
  answer : A → Response A
  error_response : ℕ → String → Response A
  attribute_error : Response A

abbrev pub mismatched_parameter_type : {A : Type 0} → String → String → Response A
mismatched_parameter_type v t = error_response 40001 (v <> " should be stored in " <> t <> ".")

abbrev pub invalid_chainid_type : {A : Type 0} → String → Response A
invalid_chainid_type v = error_response 40003 ("invalid chainId type: " <> v <> " (eth, btc).")

abbrev pub failed : {A : Type 0} → String → Response A
failed message = error_response 40999 message

-- `sim_btc_plugin.has_key(chainId)`, of the coins that are configured.
unfoldable pub elem : String → List String → Bool
elem a [] = false
elem a (b ∷ bs) = if str_eq b a then true else elem a bs

-- The plug-in that a handler's tests pick.
pub data Plugin : Type 0 where
  sim_btc : String → Plugin
  hc usdt btm eth : Plugin

module _ (sim_btc_plugin : List String) where
  -- The tests of `createTrx` and of most handlers for the coins with unspent outputs.
  unfoldable pub utxo_plugin : String → Option Plugin
  utxo_plugin chain =
      if elem chain sim_btc_plugin
      then some (sim_btc chain)
      else if str_eq chain "hc"
      then some hc
      else if str_eq chain "usdt"
      then some usdt
      else if str_eq chain "btm"
      then some btm
      else none

  -- Those with ETH and its tokens too; `lowered` is the text that these two tests look at.
  unfoldable pub any_plugin : String → String → Option Plugin
  any_plugin chain lowered = elim (utxo_plugin chain) [
    | some p ↦ some p
    | none ↦ if str_eq lowered "eth" || has_text "erc" lowered then some eth else none
  ]

  -- Those of `VerifyMessage`, which knows neither USDT nor BTM.
  unfoldable pub verify_plugin : String → Option Plugin
  verify_plugin chain =
      if elem chain sim_btc_plugin
      then some (sim_btc chain)
      else if str_eq chain "hc"
      then some hc
      else if str_eq chain "eth" || has_text "erc" chain
      then some eth
      else none
