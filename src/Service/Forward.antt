-- ===== src/Service/Forward.antt =====
-- The handlers of service/sim_api.py that ask one plug-in and pass its answer on: getUtxoCount,
-- DecodeTrx, CombineTrx, Address.validate, GetBalance, getBlockHeight, getTrxHistoryByAddress and
-- getEthTrx. What the plug-ins return or
-- raise is a parameter.
use cross_chain_mid_ware.Base.{
  ℕ, String, Bool, ◌||◌, Option, none, some, List, [], ◌∷◌, length, str_eq, if◌then◌else◌,
}
use cross_chain_mid_ware.Base.Text.{lower, has_text}
use cross_chain_mid_ware.Base.Dict.{Dict, has_key}
use cross_chain_mid_ware.Base.Result.{Result, ok, err, key_error, ◌>>=◌}
use cross_chain_mid_ware.Wallet.Select.{TxOut}
use cross_chain_mid_ware.Service.Interface.{
  Arg, given, mistyped, Response, answer, attribute_error, mismatched_parameter_type,
  invalid_chainid_type, failed, elem, Plugin, sim_btc, hc, usdt, btm, eth, utxo_plugin, any_plugin,
}

-- What the plug-ins return, or the exception they raise; an answer of "" is a refusal.
pub record Plugins : Type 0 where
  pub sim_btc_plugin : List String
  pub trx_out : Plugin → String → Result (List TxOut)
  pub decode : Plugin → String → Result String
  pub combine : Plugin → List String → Result String
  pub is_valid : Plugin → String → Result (Option Bool)
  pub balance : Plugin → String → Result String
  pub height : Plugin → Result ℕ
  pub eth_history : String → String → String → Result (List String)
  pub eth_trx : String → Result String
  -- `hcsyncblocknum` of `b_config`, and `erc_chainId_map`
  pub hc_sync_block_num : Option ℕ
  pub erc_chain_id_map : Dict String

module _ (b : Plugins) where
  unfoldable pub count_with : String → String → Option Plugin → Result (Response ℕ)
  count_with chain address none = ok (invalid_chainid_type chain)
  count_with chain address (some p) = b.trx_out p address >>= λ outs. ok (answer (length outs))

  unfoldable pub zchain_query_get_utxo_count : Arg String → String → Result (Response ℕ)
  unfolding count_with
  zchain_query_get_utxo_count mistyped address = ok (mismatched_parameter_type "chainId" "STRING")
  zchain_query_get_utxo_count (given chain) address =
      count_with (lower chain) address (utxo_plugin b.sim_btc_plugin (lower chain))

  unfoldable pub decode_with : String → String → Option Plugin → Result (Response (String × String))
  decode_with chain trx_hex none = ok (invalid_chainid_type chain)
  decode_with chain trx_hex (some p) = b.decode p trx_hex >>= λ result.
      ok (if str_eq result "" then failed "Cannot create transaction." else answer (chain, result))

  unfoldable pub zchain_trans_decode_trx : Arg String → String → Result (Response (String × String))
  unfolding decode_with
  zchain_trans_decode_trx mistyped trx_hex = ok attribute_error
  zchain_trans_decode_trx (given chain) trx_hex =
      decode_with (lower chain) trx_hex (utxo_plugin b.sim_btc_plugin (lower chain))

  unfoldable pub combine_by : String → List String → Plugin → Result (Response (String × String))
  combine_by chain transactions p = b.combine p transactions >>= λ result.
      ok (if str_eq result "" then failed "Cannot combine transaction." else answer (chain, result))

  -- USDT combines through the plug-in of BTC, which must be configured; BTM does not combine.
  unfoldable pub combine_with :
      String → List String → Option Plugin → Result (Response (String × String))
  unfolding combine_by
  combine_with chain transactions none = ok (invalid_chainid_type chain)
  combine_with chain transactions (some btm) = ok (invalid_chainid_type chain)
  combine_with chain transactions (some usdt) =
      if elem "btc" b.sim_btc_plugin
      then combine_by chain transactions (sim_btc "btc")
      else err (key_error "btc")
  combine_with chain transactions (some p) = combine_by chain transactions p

  unfoldable pub zchain_trans_combine_trx :
      Arg String → List String → Result (Response (String × String))
  unfolding combine_with
  zchain_trans_combine_trx mistyped transactions = ok attribute_error
  zchain_trans_combine_trx (given chain) transactions =
      combine_with (lower chain) transactions (utxo_plugin b.sim_btc_plugin (lower chain))

  unfoldable pub validate_with :
      String → String → Option Plugin → Result (Response (String × Option Bool))
  validate_with chain addr none = ok (invalid_chainid_type chain)
  validate_with chain addr (some p) = b.is_valid p addr >>= λ valid. ok (answer (chain, valid))

  unfoldable pub zchain_address_validate :
      Arg String → Arg String → Result (Response (String × Option Bool))
  unfolding validate_with
  zchain_address_validate mistyped addr = ok attribute_error
  zchain_address_validate (given chain) mistyped = ok (mismatched_parameter_type "addr" "STRING")
  zchain_address_validate (given chain) (given addr) =
      validate_with (lower chain) addr (any_plugin b.sim_btc_plugin (lower chain) (lower chain))

  -- `sim_btc_utils_all`, of all coins whether configured or not.
  abbrev pub sim_btc_utils_all : List String
  sim_btc_utils_all = "btc" ∷ "ltc" ∷ "ub" ∷ "bch" ∷ "doge" ∷ []

  unfoldable pub balance_of :
      String → String → Plugin → Result (Response (String × String × String))
  balance_of chain addr p = b.balance p addr >>= λ balance. ok (answer (chain, addr, balance))

  -- The chain, the address and the balance. Tokens are looked up by the name as it was given.
  unfoldable pub zchain_address_get_balance :
      String → String → Result (Response (String × String × String))
  unfolding balance_of
  zchain_address_get_balance erc_chain addr =
      let chain = lower erc_chain in
      if str_eq chain "eth"
      then balance_of chain addr eth
      else if has_text "erc" chain
      then (if has_key erc_chain b.erc_chain_id_map
          then balance_of chain addr eth
          else ok (invalid_chainid_type chain))
      else if str_eq chain "hc"
      then balance_of chain addr hc
      else if elem chain sim_btc_utils_all
      then (if elem chain b.sim_btc_plugin
          then balance_of chain addr (sim_btc chain)
          else err (key_error chain))
      else if str_eq chain "usdt"
      then balance_of chain addr usdt
      else if str_eq chain "btm"
      then balance_of chain addr btm
      else ok (invalid_chainid_type chain)

  unfoldable pub zchain_query_get_block_height : Arg String → Result (Response ℕ)
  zchain_query_get_block_height mistyped = ok (mismatched_parameter_type "chainId" "STRING")
  zchain_query_get_block_height (given c) =
      let chain = lower c in
      if has_text "erc" chain || str_eq "eth" chain
      then (b.height eth >>= λ n. ok (answer n))
      else if str_eq "btm" chain
      then (b.height btm >>= λ n. ok (answer n))
      else if str_eq "hc" chain
      then ok (answer (elim b.hc_sync_block_num [ none ↦ 0 | some n ↦ n ]))
      else ok (invalid_chainid_type chain)

  unfoldable pub zchain_query_get_trx_history_by_address :
      Arg String → String → String → String → Result (Response (List String))
  zchain_query_get_trx_history_by_address mistyped address first last =
      ok (mismatched_parameter_type "chainId" "STRING")
  zchain_query_get_trx_history_by_address (given chain) address first last =
      if has_text "erc" (lower chain) || str_eq "eth" (lower chain)
      then (b.eth_history address first last >>= λ rows. ok (answer rows))
      else ok (invalid_chainid_type (lower chain))

  unfoldable pub zchain_query_get_eth_trx : Arg String → String → Result (Response String)
  zchain_query_get_eth_trx mistyped trxid = ok (mismatched_parameter_type "chainId" "STRING")
  zchain_query_get_eth_trx (given chain) trxid =
      if has_text "erc" (lower chain) || str_eq "eth" (lower chain)
      then (b.eth_trx trxid >>= λ trx. ok (answer trx))
      else ok (invalid_chainid_type (lower chain))
