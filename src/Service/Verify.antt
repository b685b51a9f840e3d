-- ===== src/Service/Verify.antt =====
-- `Zchain.Crypt.VerifyMessage` (service/sim_api.py, `zchain_crypt_verify_message`): signatures that
-- verified are kept in `b_verify_cache`.
pub mod Laws
use cross_chain_mid_ware.Base.{
  ℕ, String, Bool, true, false, ◌&&◌, Option, none, some, List, [], ◌∷◌, ◌++◌, str_eq,
  if◌then◌else◌,
}
use cross_chain_mid_ware.Base.Text.{lower}
use cross_chain_mid_ware.Service.Interface.{
  Arg, given, mistyped, Response, answer, attribute_error, invalid_chainid_type, Plugin,
  verify_plugin,
}

-- A record of `b_verify_cache`.
pub record Signed : Type 0 where
  pub chain_id : String
  pub addr : String
  pub message : String
  pub signature : String

abbrev pub same_signed : Signed → Signed → Bool
same_signed a b =
    str_eq a.chain_id b.chain_id
    && str_eq a.addr b.addr
    && str_eq a.message b.message
    && str_eq a.signature b.signature

-- `find_one({...})` is not None
unfoldable pub is_cached : Signed → List Signed → Bool
is_cached q [] = false
is_cached q (r ∷ rs) = if same_signed r q then true else is_cached q rs

-- The answer, the collection, and how often a plug-in was asked.
abbrev pub VerifyOutcome : Type 0
VerifyOutcome = Response (String × Bool) × List Signed × ℕ

module _ (sim_btc_plugin : List String) (verify : Plugin → Signed → Bool) where
  unfoldable pub verify_with : Signed → Option Plugin → List Signed → VerifyOutcome
  verify_with q none rows = (invalid_chainid_type q.chain_id, rows, 0)
  verify_with q (some p) rows =
      (answer (q.chain_id, verify p q), if verify p q then rows ++ q ∷ [] else rows, 1)

  unfoldable pub zchain_crypt_verify_message :
      Arg String → String → String → String → List Signed → VerifyOutcome
  zchain_crypt_verify_message mistyped addr message signature rows = (attribute_error, rows, 0)
  zchain_crypt_verify_message (given chain) addr message signature rows =
      let q : Signed = record {
        chain_id = lower chain;
        addr = addr;
        message = message;
        signature = signature;
      } in
      if is_cached q rows
      then (answer (lower chain, true), rows, 0)
      else verify_with q (verify_plugin sim_btc_plugin (lower chain)) rows
