-- ===== src/Service/Verify/Laws.antt =====
-- What the cache of signatures holds (service/sim_api.py).
use mathlib.Core.Path.{subst}
use mathlib.Core.Option.{some-injective}
use cross_chain_mid_ware.Base.{
  ◌≡◌, refl, ap, sym, ◌∙◌, String, Bool, true, Option, none, some, List, [], ◌∷◌, eq_iff, All,
  All-append, arith, Bool-cases, inl, inr,
}
use cross_chain_mid_ware.Base.Text.{lower}
use cross_chain_mid_ware.Service.Interface.{Arg, given, mistyped, answer, Plugin, verify_plugin}
use cross_chain_mid_ware.Service.Verify.{
  Signed, same_signed, is_cached, verify_with, zchain_crypt_verify_message,
}

same_signed-eq : (a b : Signed) → same_signed a b ≡ true → a ≡ b
same_signed-eq a b h = ground (
  arith,
  eq_iff a.chain_id b.chain_id,
  eq_iff a.addr b.addr,
  eq_iff a.message b.message,
  eq_iff a.signature b.signature,
)

module _ (sim_btc_plugin : List String) (verify : Plugin → Signed → Bool) where
  -- The plug-in of the chain accepts it.
  abbrev pub Verifies : Signed → Type 0
  Verifies q =
      (p : Plugin) × (verify_plugin sim_btc_plugin q.chain_id ≡ some p) × (verify p q ≡ true)

  verify_with-Verifies :
      (q : Signed) (o : Option Plugin) (rows : List Signed)
      → verify_plugin sim_btc_plugin q.chain_id ≡ o
      → All Verifies rows
      → All Verifies (verify_with sim_btc_plugin verify q o rows).1
  unfolding verify_with
  verify_with-Verifies q none rows e a = a
  verify_with-Verifies q (some p) rows e a = elim (Bool-cases (verify p q)) [
    | inl v ↦ rw v (All-append Verifies rows (q ∷ []) a ((p, e, v), tt))
    | inr v ↦ rw v a
  ]

  -- As long as the cache holds nothing but signatures that the plug-in of their chain accepts, a
  -- request leaves it so, whatever is asked.
  pub verify_message-Verifies :
      (chain : Arg String) (addr message signature : String) (rows : List Signed)
      → All Verifies rows
      → All Verifies
          (zchain_crypt_verify_message sim_btc_plugin verify chain addr message signature rows).1
  unfolding zchain_crypt_verify_message
  verify_message-Verifies mistyped addr message signature rows a = a
  verify_message-Verifies (given chain) addr message signature rows a =
      let q : Signed = record {
        chain_id = lower chain;
        addr = addr;
        message = message;
        signature = signature;
      } in
      elim (Bool-cases (is_cached q rows)) [
        | inl e ↦ rw e a
        | inr e ↦
            rw e (verify_with-Verifies q (verify_plugin sim_btc_plugin (lower chain)) rows refl a)
      ]

  cached-Verifies :
      (q : Signed) (rows : List Signed) → All Verifies rows → is_cached q rows ≡ true → Verifies q
  unfolding is_cached
  cached-Verifies q [] a h = absurd (cc h)
  cached-Verifies q (r ∷ rs) a h = elim (Bool-cases (same_signed r q)) [
    | inl e ↦ subst Verifies (same_signed-eq r q e) a.0
    | inr e ↦ cached-Verifies q rs a.1 (rw e at h)
  ]

  -- The cache does not show: as long as it holds nothing but signatures that the plug-in of their
  -- chain accepts, a request for a chain with a plug-in is answered with what that plug-in says.
  pub verify_message-answer :
      (chain addr message signature : String) (p : Plugin) (rows : List Signed)
      → All Verifies rows
      → verify_plugin sim_btc_plugin (lower chain) ≡ some p
      → let q : Signed = record {
        chain_id = lower chain;
        addr = addr;
        message = message;
        signature = signature;
      } in
        (zchain_crypt_verify_message sim_btc_plugin verify
          (given chain)
          addr
          message
          signature
          rows).0
        ≡ answer (lower chain, verify p q)
  unfolding zchain_crypt_verify_message verify_with
  verify_message-answer chain addr message signature p rows a hp =
      let q : Signed = record {
        chain_id = lower chain;
        addr = addr;
        message = message;
        signature = signature;
      } in
      elim (Bool-cases (is_cached q rows)) [
        | inl e ↦
            let (p', hp', v) = cached-Verifies q rows a e in
            let same : p' ≡ p = some-injective _ _ (sym hp' ∙ hp) in
            rw e (ap (λ b. answer (lower chain, b)) (sym v ∙ ap (λ (r : Plugin). verify r q) same))
        | inr e ↦ rw e (rw (verify_with, hp) refl)
      ]
