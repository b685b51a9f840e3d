-- ===== src/Usdt/Classify/Laws.antt =====
-- Which rows a transaction of the Omni layer leaves.
use mathlib.Core.List.{append-nil}
use cross_chain_mid_ware.Base.{
  ℕ, ◌≡◌, refl, ap, ◌∙◌, String, Bool, true, false, ◌&&◌, not, some, [], ◌∷◌, ◌++◌, str_eq, eq_iff,
  if◌then◌else◌, Bool-cases, inl, inr,
}
use cross_chain_mid_ware.Base.Result.{ok, ◌>>=◌}
use cross_chain_mid_ware.Usdt.Classify.{
  OmniTrx, UsdtCaches, omni_value, usdt_scan, usdt_type, usdt_row, record_usdt, record_value,
  collect_usdt, add_deposit, add_withdraws,
}

module _ (is_multisig : String → Bool) (symbol : String) (no_empty : is_multisig "" ≡ false) where
  non_empty : (a : String) → is_multisig a ≡ true → str_eq a "" ≡ false
  non_empty a h = elim (Bool-cases (str_eq a "")) [
    | inl e ↦
        let same : a ≡ "" = (eq_iff a "").0 e in absurd (cc (h, no_empty, ap is_multisig same))
    | inr e ↦ e
  ]

  recorded :
      (x : OmniTrx) (n value : ℕ) (c : UsdtCaches)
      → let row = usdt_row symbol x n x.sendingaddress x.referenceaddress value in
        let to = x.valid && is_multisig x.referenceaddress in
        let from =
          x.valid && is_multisig x.sendingaddress && not (is_multisig x.referenceaddress) in
        record_value symbol is_multisig x n (some value) c ≡ record {
          deposits = c.deposits ++ (if to then row ∷ [] else []);
          withdraws = c.withdraws ++ (if from then row ∷ [] else []);
        }
  unfolding record_value usdt_scan usdt_type record_usdt add_deposit add_withdraws
  recorded x n value c = elim (Bool-cases (is_multisig x.sendingaddress)) [
    | inl s ↦ elim (Bool-cases (is_multisig x.referenceaddress)) [
      | inl r ↦ elim (Bool-cases x.valid) [
        | inl v ↦
            rw
              (
                s,
                r,
                non_empty x.sendingaddress s,
                non_empty x.referenceaddress r,
                v,
                append-nil c.withdraws,
              )
              refl
        | inr v ↦
            rw
              (
                s,
                r,
                non_empty x.sendingaddress s,
                non_empty x.referenceaddress r,
                v,
                append-nil c.deposits,
                append-nil c.withdraws,
              )
              refl
      ]
      | inr r ↦ elim (Bool-cases x.valid) [
        | inl v ↦ rw (s, r, non_empty x.sendingaddress s, v, append-nil c.deposits) refl
        | inr v ↦
            rw
              (s, r, non_empty x.sendingaddress s, v, append-nil c.deposits, append-nil c.withdraws)
              refl
      ]
    ]
    | inr s ↦ elim (Bool-cases (is_multisig x.referenceaddress)) [
      | inl r ↦ elim (Bool-cases x.valid) [
        | inl v ↦ rw (s, r, non_empty x.referenceaddress r, v, append-nil c.withdraws) refl
        | inr v ↦
            rw
              (
                s,
                r,
                non_empty x.referenceaddress r,
                v,
                append-nil c.deposits,
                append-nil c.withdraws,
              )
              refl
      ]
      | inr r ↦ elim (Bool-cases x.valid) [
        | inl v ↦ rw (s, r, v, append-nil c.deposits, append-nil c.withdraws) refl
        | inr v ↦ rw (s, r, v, append-nil c.deposits, append-nil c.withdraws) refl
      ]
    ]
  ]

  -- For a transaction that moves the property, a valid one to a multisig address is one deposit there;
  -- a valid one from a multisig address to another address is one withdrawal; no other leaves a row.
  -- Each row has the sender, the receiver and the amount of the transaction. The empty text is to be
  -- no multisig address.
  pub collect_usdt-rows :
      (target n value : ℕ) (x : OmniTrx) (c : UsdtCaches)
      → omni_value target x ≡ ok (some value)
      → let row = usdt_row symbol x n x.sendingaddress x.referenceaddress value in
        let to = x.valid && is_multisig x.referenceaddress in
        let from =
          x.valid && is_multisig x.sendingaddress && not (is_multisig x.referenceaddress) in
        collect_usdt symbol is_multisig target x n c
        ≡ ok (record {
          deposits = c.deposits ++ (if to then row ∷ [] else []);
          withdraws = c.withdraws ++ (if from then row ∷ [] else []);
        })
  unfolding collect_usdt
  collect_usdt-rows target n value x c h =
      ap (λ v. v >>= λ amount. ok (record_value symbol is_multisig x n amount c)) h
      ∙ ap ok (recorded x n value c)
