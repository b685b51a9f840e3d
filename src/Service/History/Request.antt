-- ===== src/Service/History/Request.antt =====
-- `zchain_transaction_all_history` (service/sim_api.py), the first function of this name: a list of
-- items, each answered by itself, where an item that lacks a part or raises is left out.
use cross_chain_mid_ware.Base.{
  ℕ, String, Option, none, some, List, [], ◌∷◌, ◌++◌, ◌==◌, if◌then◌else◌,
}
use cross_chain_mid_ware.Base.Text.{lower}
use cross_chain_mid_ware.Base.Dict.{Dict, lookup}
use cross_chain_mid_ware.Base.Result.{Result, ok, err, type_error, from_option, ◌>>=◌}
use cross_chain_mid_ware.Collector.Record.{Transfer}
use cross_chain_mid_ware.Service.Interface.{
  Arg, given, mistyped, Response, answer, mismatched_parameter_type,
}
use cross_chain_mid_ware.Service.History.{Tables, is_eth, history_from}

-- An item of the request; `none` is what it lacks.
pub record Item : Type 0 where
  pub chain_id : Option (Arg String)
  pub account : Option (Arg String)
  pub block_num : Option (Arg ℕ)
  pub limit : Option (Arg ℕ)

-- `chainId`, `blockNum` and `data`.
pub record ItemAnswer : Type 0 where
  pub chain_id : String
  pub block_num : Option ℕ
  pub trxs : List Transfer

-- `current_block_info`
abbrev pub current_block_info : Dict String
current_block_info =
    ("eth", "syncblocknum")
    ∷ ("btc", "btcsyncblocknum")
    ∷ ("ltc", "ltcsyncblocknum")
    ∷ ("hc", "hcsyncblocknum")
    ∷ ("usdt", "usdtsyncblocknum")
    ∷ ("bch", "bchsyncblocknum")
    ∷ ("doge", "dogesyncblocknum")
    ∷ []

-- The number under a key of `b_config`; without it the source raises.
unfoldable pub config_number : Tables → String → Result ℕ
config_number db key = from_option type_error (lookup key db.b_config)

-- `current_block_num`; 0 for a chain that the table does not name.
unfoldable pub current_block_num : Tables → String → Result ℕ
current_block_num db chain =
    if is_eth chain
    then config_number db "syncblocknum"
    else elim (lookup chain current_block_info) [ none ↦ ok 0 | some key ↦ config_number db key ]

-- ETH starts at a block that is set, and reads larger windows.
unfoldable pub start_block : String → ℕ → ℕ
start_block chain block_num =
    if is_eth chain then (if block_num == 0 then 6500000 else block_num) else block_num

unfoldable pub dep_num : String → ℕ
dep_num chain = if is_eth chain then 10000 else 1000

unfoldable pub item_history : Tables → String → ℕ → Result ItemAnswer
item_history db chain block_num = current_block_num db (lower chain) >>= λ current.
    let (number, found) =
      history_from db (lower chain) (start_block (lower chain) block_num) (dep_num (lower chain))
        current in
    ok (record { chain_id = chain; block_num = number; trxs = found })

-- One item: left out, answered, or the end of the whole request.
pub data Handled : Type 0 where
  skipped : Handled
  answered : ItemAnswer → Handled
  refused : Response (List ItemAnswer) → Handled

unfoldable pub answer_or_skip : Result ItemAnswer → Handled
answer_or_skip (ok a) = answered a
answer_or_skip (err e) = skipped

-- The checks of the types, in their order, once no part is missing.
unfoldable pub handle_given : Tables → Arg String → Arg String → Arg ℕ → Arg ℕ → Handled
handle_given db mistyped account block_num limit = skipped
handle_given db (given chain) mistyped block_num limit =
    refused (mismatched_parameter_type "account" "STRING")
handle_given db (given chain) (given account) mistyped limit =
    refused (mismatched_parameter_type "blockNum" "INTEGER")
handle_given db (given chain) (given account) (given n) mistyped =
    refused (mismatched_parameter_type "limit" "INTEGER")
handle_given db (given chain) (given account) (given n) (given limit) =
    answer_or_skip (item_history db chain n)

unfoldable pub handle_parts :
    Tables → Option (Arg String) → Option (Arg String) → Option (Arg ℕ) → Option (Arg ℕ) → Handled
handle_parts db (some chain) (some account) (some n) (some limit) =
    handle_given db chain account n limit
handle_parts db _ _ _ _ = skipped

unfoldable pub all_history : Tables → List Item → List ItemAnswer → Response (List ItemAnswer)
all_history db [] ret = answer ret
all_history db (i ∷ is) ret = elim (handle_parts db i.chain_id i.account i.block_num i.limit) [
  | skipped ↦ all_history db is ret
  | answered a ↦ all_history db is (ret ++ a ∷ [])
  | refused r ↦ r
]

unfoldable pub zchain_transaction_all_history : Tables → List Item → Response (List ItemAnswer)
zchain_transaction_all_history db param = all_history db param []
