-- ===== src/Service/Import.antt =====
-- `Zchain.Addr.importAddr` and `importAddrs` (service/sim_api.py): an address is handed to the
-- wallet node of its coin, or for ETH and its tokens recorded in `b_eths_address`.
pub mod Laws
use text.Mathlib.Text.{find?}
use cross_chain_mid_ware.Base.{
  ℕ, String, Bool, true, false, ◌&&◌, Option, none, some, List, [], ◌∷◌, ◌++◌, str_eq,
  if◌then◌else◌,
}
use cross_chain_mid_ware.Base.Text.{lower, has_text, prefix}
use cross_chain_mid_ware.Base.Dict.{Dict, has_key}
use cross_chain_mid_ware.Service.Interface.{
  Arg, given, mistyped, Response, answer, mismatched_parameter_type, invalid_chainid_type, elem,
  Plugin, sim_btc, hc, usdt,
}

-- A record of `b_eths_address`.
pub record EthsRow : Type 0 where
  pub chain_id : String
  pub address : String
  pub is_contract_address : Bool

-- The collection, what the wallet nodes were told, and the guard addresses of `eth_utils`.
pub record ImportState : Type 0 where
  pub b_eths_address : List EthsRow
  pub imported : List (Plugin × String)
  pub guard_addresses : List String

abbrev pub is_row : String → String → EthsRow → Bool
is_row chain address r = str_eq r.chain_id chain && str_eq r.address address

-- The insertion where `find_one` finds none, and else the update, of the first row.
unfoldable pub upsert : String → String → Bool → List EthsRow → List EthsRow
upsert chain address flag [] =
    record { chain_id = chain; address = address; is_contract_address = flag } ∷ []
upsert chain address flag (r ∷ rs) =
    let rest = upsert chain address flag rs in
    if is_row chain address r then record r { is_contract_address = flag } ∷ rs else r ∷ rest

-- `addr[0:addr.find("erc")]`, and whether there is an "erc".
abbrev pub handle_of : String → Option ℕ → String × Bool
handle_of addr none = (addr, false)
handle_of addr (some pos) = (prefix pos addr, true)

unfoldable pub handle_addr : String → String × Bool
unfolding prefix
handle_addr addr = handle_of addr (find? addr "erc")

-- The branches of ETH and of a token that is configured.
unfoldable pub import_eths : String → String → ImportState → ImportState
import_eths chain addr s =
    let (handle, flag) = handle_addr addr in
    record s {
      b_eths_address = upsert chain handle flag s.b_eths_address;
      guard_addresses = s.guard_addresses ++ addr ∷ [];
    }

abbrev pub tell_wallet : Plugin → String → ImportState → ImportState
tell_wallet p addr s = record s { imported = s.imported ++ (p, addr) ∷ [] }

module _ (sim_btc_plugin : List String) (erc_chain_id_map : Dict String) where
  -- One address; none for a chain that is not known. A token that is not configured is passed over.
  unfoldable pub import_one : String → String → ImportState → Option ImportState
  import_one chain addr s =
      if elem chain sim_btc_plugin
      then some (tell_wallet (sim_btc chain) addr s)
      else if str_eq chain "hc"
      then some (tell_wallet hc addr s)
      else if str_eq chain "usdt"
      then some (tell_wallet usdt addr s)
      else if str_eq (lower chain) "eth"
      then some (import_eths (lower chain) addr s)
      else if has_text "erc" (lower chain)
      then (if has_key chain erc_chain_id_map then some (import_eths chain addr s) else some s)
      else none

  abbrev pub import_answer :
      String → ImportState → Option ImportState → Response String × ImportState
  import_answer chain s none = (invalid_chainid_type chain, s)
  import_answer chain s (some s') = (answer chain, s')

  unfoldable pub zchain_addr_importaddr :
      Arg String → String → ImportState → Response String × ImportState
  zchain_addr_importaddr mistyped addr s = (mismatched_parameter_type "chainId" "STRING", s)
  zchain_addr_importaddr (given chain) addr s = import_answer chain s (import_one chain addr s)

  -- The loop over the addresses, which ends with the first that is refused.
  unfoldable pub import_all : String → List String → ImportState → Response String × ImportState
  import_all chain [] s = (answer chain, s)
  import_all chain (addr ∷ addrs) s = elim (import_one chain addr s) [
    | none ↦ (invalid_chainid_type chain, s)
    | some s' ↦ import_all chain addrs s'
  ]

  unfoldable pub zchain_addr_import_addrs :
      Arg String → List String → ImportState → Response String × ImportState
  zchain_addr_import_addrs mistyped addrs s = (mismatched_parameter_type "chainId" "STRING", s)
  zchain_addr_import_addrs (given chain) addrs s = import_all chain addrs s
