-- ===== src/Eth/Node.antt =====
-- What the collector of ETH gets from its node (`safe_eth_request_from_db`, of
-- eth_data_collector/eth_utils.py, which asks again until there is an answer): an error stands for
-- an answer that is no JSON, none for a result that is null.
use cross_chain_mid_ware.Base.{ℕ, suc, zero, String, Option, List, [], ◌∷◌, ◌-◌, ◌/◌}
use cross_chain_mid_ware.Base.Result.{Result}
use cross_chain_mid_ware.Base.Text.{len, prefix, suffix}

pub record EthTrx : Type 0 where
  pub hash : String
  pub block_number : String
  pub input : String
  pub from_addr : String
  pub to_addr : Option String
  pub value : String
  pub gas : String
  pub gas_price : String

pub record Log : Type 0 where
  pub topics : Option (List String)
  pub data_text : String
  pub log_index : String

pub record Receipt : Type 0 where
  pub contract_address : Option String
  pub logs : Option (List Log)

-- A transfer of a token.
pub record ErcTrx : Type 0 where
  pub txid : String
  pub from_addr : String
  pub to_addr : String
  pub contract_address : String
  pub value : String
  pub block_number : ℕ
  pub log_index : ℕ

pub record Node : Type 0 where
  pub get_block_height : Result ℕ
  pub get_normal_history : ℕ → Result (Option (List String))
  pub get_erc20_history : ℕ → Result (Option (List String))
  pub get_trx : String → Result (Option EthTrx)
  pub get_trx_receipt : String → Result (Option Receipt)
  pub get_erc20_trx : String → Result (Option (List ErcTrx))

-- The topic of a multisig contract's payments, and the word that stands for ETH in them.
abbrev pub payment_topic : String
payment_topic = "0x0169d72b4638e9bc0f81e32c7cf97acd164b6d70e57234bc29346a946ae6ce1b"

abbrev pub zero_word : String
zero_word = "0000000000000000000000000000000000000000000000000000000000000000"

-- Slices of 64 characters.
words : ℕ → String → List String
unfolding prefix suffix
words zero s = []
words (suc n) s = prefix 64 s ∷ words n (suffix 64 s)

-- The words of a log's data, behind "0x".
unfoldable pub datas : String → List String
unfolding words len suffix
datas s = words ((len s - 2) / 64) (suffix 2 s)
