-- ===== src/Service/Import/Laws.antt =====
-- What an import leaves in `b_eths_address` (service/sim_api.py).
use mathlib.Core.Path.{subst}
use mathlib.Core.Option.{some-injective, none-ne-some}
use cross_chain_mid_ware.Base.{
  ◌≡◌, refl, ap, String, Bool, Option, none, some, List, [], ◌∷◌, str_eq, eq_refl, Bool-cases, inl,
  inr,
}
use cross_chain_mid_ware.Base.Text.{lower, has_text}
use cross_chain_mid_ware.Base.Dict.{Dict, has_key}
use cross_chain_mid_ware.Service.Interface.{given, elem, sim_btc, hc, usdt}
use cross_chain_mid_ware.Service.Import.{
  EthsRow, ImportState, is_row, upsert, handle_addr, import_eths, tell_wallet, import_one,
  zchain_addr_importaddr,
}

-- A second one with the same flag changes nothing.
upsert-again :
    (chain a : String) (flag : Bool) (rs : List EthsRow)
    → upsert chain a flag (upsert chain a flag rs) ≡ upsert chain a flag rs
unfolding upsert
upsert-again chain a flag [] = rw (eq_refl chain, eq_refl a) refl
upsert-again chain a flag (r ∷ rs) = elim (Bool-cases (is_row chain a r)) [
  | inl e ↦ rw e (rw e refl)
  | inr e ↦ rw e (rw e (ap (λ l. r ∷ l) (upsert-again chain a flag rs)))
]

import_eths-again :
    (chain addr : String) (s t : ImportState)
    → some (import_eths chain addr s) ≡ some t
    → (import_eths chain addr t).b_eths_address ≡ t.b_eths_address
unfolding import_eths
import_eths-again chain addr s t h =
    subst (λ u. (import_eths chain addr u).b_eths_address ≡ u.b_eths_address)
      (some-injective (import_eths chain addr s) t h)
      (upsert-again chain (handle_addr addr).0 (handle_addr addr).1 s.b_eths_address)

module _ (sim_btc_plugin : List String) (erc_chain_id_map : Dict String) where
  import_one-again :
      (chain addr : String) (s t : ImportState)
      → import_one sim_btc_plugin erc_chain_id_map chain addr s ≡ some t
      → (u : ImportState) × (import_one sim_btc_plugin erc_chain_id_map chain addr t ≡ some u)
        × (u.b_eths_address ≡ t.b_eths_address)
  unfolding import_one
  import_one-again chain addr s t h = elim (Bool-cases (elem chain sim_btc_plugin)) [
    | inl e ↦ (tell_wallet (sim_btc chain) addr t, rw (import_one, e) refl, refl)
    | inr e ↦ elim (Bool-cases (str_eq chain "hc")) [
      | inl f ↦ (tell_wallet hc addr t, rw (import_one, e, f) refl, refl)
      | inr f ↦ elim (Bool-cases (str_eq chain "usdt")) [
        | inl g ↦ (tell_wallet usdt addr t, rw (import_one, e, f, g) refl, refl)
        | inr g ↦ elim (Bool-cases (str_eq (lower chain) "eth")) [
          | inl i ↦ (
            import_eths (lower chain) addr t,
            rw (import_one, e, f, g, i) refl,
            import_eths-again (lower chain) addr s t (rw (import_one, e, f, g, i) at h),
          )
          | inr i ↦ elim (Bool-cases (has_text "erc" (lower chain))) [
            | inl j ↦ elim (Bool-cases (has_key chain erc_chain_id_map)) [
              | inl k ↦ (
                import_eths chain addr t,
                rw (import_one, e, f, g, i, j, k) refl,
                import_eths-again chain addr s t (rw (import_one, e, f, g, i, j, k) at h),
              )
              | inr k ↦ (t, rw (import_one, e, f, g, i, j, k) refl, refl)
            ]
            | inr j ↦ absurd (none-ne-some t (rw (import_one, e, f, g, i, j) at h))
          ]
        ]
      ]
    ]
  ]

  -- Whatever the chain and the address, the same request to importAddr a second time is answered
  -- like the first and leaves the collection of ETH addresses as the first left it.
  pub importaddr-again :
      (chain addr : String) (s : ImportState)
      → let first = zchain_addr_importaddr sim_btc_plugin erc_chain_id_map (given chain) addr s in
        let second =
          zchain_addr_importaddr sim_btc_plugin erc_chain_id_map (given chain) addr first.1 in
        (second.0 ≡ first.0) × (second.1.b_eths_address ≡ first.1.b_eths_address)
  unfolding zchain_addr_importaddr
  importaddr-again chain addr s =
      split (import_one sim_btc_plugin erc_chain_id_map chain addr s) refl
    where
      split :
          (o : Option ImportState)
          → import_one sim_btc_plugin erc_chain_id_map chain addr s ≡ o
          → let first =
              zchain_addr_importaddr sim_btc_plugin erc_chain_id_map (given chain) addr s in
            let second =
              zchain_addr_importaddr sim_btc_plugin erc_chain_id_map (given chain) addr first.1 in
            (second.0 ≡ first.0) × (second.1.b_eths_address ≡ first.1.b_eths_address)
      split none e = rw (zchain_addr_importaddr, e) (rw e (refl, refl))
      split (some t) e =
          let (u, again, same) = import_one-again chain addr s t e in
          rw (zchain_addr_importaddr, e) (rw again (refl, same))
