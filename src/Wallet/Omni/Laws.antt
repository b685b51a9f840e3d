-- ===== src/Wallet/Omni/Laws.antt =====
-- What a transaction of USDT pays and to whom.
use mathlib.Core.Path.{subst}
use mathlib.Core.Option.{some-injective, none-ne-some}
use cross_chain_mid_ware.Base.{
  ℕ, ◌+◌, ◌-◌, ◌*◌, ◌≤◌, ◌<◌, ◌≡◌, refl, ap, ◌∙◌, String, true, false, ◌||◌, Option, none, some,
  List, [], ◌∷◌, arith, ◌⊎◌, ltb, leb, ◌==◌, str_eq, eq_iff, if◌then◌else◌, length, sum_by,
  Bool-cases, Option-cases, inl, inr,
}
use cross_chain_mid_ware.Base.Dict.{Dict, lookup, insert, lookup-insert}
use cross_chain_mid_ware.Wallet.Select.{TxOut, sort_desc}
use cross_chain_mid_ware.Wallet.Interface.{FeeConfig}
use cross_chain_mid_ware.Wallet.Outputs.{dest_amount, dust}
use cross_chain_mid_ware.Wallet.Omni.{
  OmniBalance, OmniPlan, is_below, omni_vouts, take_coins, find_546, omni_size_fee, omni_change,
  with_546, dust_fee, omni_plan_with, omni_plan,
}

take_coins-total :
    (fee : ℕ) (xs : List TxOut) (total : ℕ)
    → let r = take_coins fee xs total in r.0 ≡ total + sum_by TxOut.amount r.1
unfolding take_coins
take_coins-total fee [] total = omega arith
take_coins-total fee (x ∷ xs) total =
    let rest = take_coins-total fee xs (total + x.amount) in
    elim (Bool-cases (leb fee total)) [
      | inl e ↦ rw e (omega arith)
      | inr e ↦ rw e (omega (arith, rest))
    ]

find_546-amount : (xs : List TxOut) (x : TxOut) → find_546 xs ≡ some x → x.amount ≡ dust
unfolding find_546
find_546-amount [] x e = cc e
find_546-amount (y ∷ ys) x e = ground (arith, find_546-amount ys x)

-- The units of the coin of 546, if there is one.
abbrev small_amount : Option TxOut → ℕ
small_amount none = 0
small_amount (some x) = x.amount

sum-with_546 :
    (small : Option TxOut) (xs : List TxOut)
    → sum_by TxOut.amount (with_546 small xs) ≡ sum_by TxOut.amount xs + small_amount small
sum-with_546 none xs = omega arith
sum-with_546 (some x) [] = omega arith
sum-with_546 (some x) (y ∷ ys) = omega (arith, sum-with_546 (some x) ys)

lookup-omni_vouts : (d : Dict ℕ) (k : String) (v : ℕ) → lookup k (omni_vouts d) ≡ some v → v ≡ dust
unfolding omni_vouts lookup
lookup-omni_vouts [] k v e = cc e
lookup-omni_vouts ((a, n) ∷ d) k v e =
    ground (arith, lookup-insert a k dust (omni_vouts d), lookup-omni_vouts d k v, e)

-- One output, of the payee.
single :
    (vouts : Dict ℕ)
    → ((k : String) (v : ℕ) → lookup k vouts ≡ some v → v ≡ dust)
    → (length vouts == 1) ≡ true
    → (addr : String) × (vouts ≡ (addr, dust) ∷ [])
unfolding lookup
single [] f h = cc h
single ((a, n) ∷ []) f h =
    let e : n ≡ dust = f a n (ground (arith, eq_iff a a)) in (a, ap (λ m. (a, m) ∷ []) e)
single ((a, n) ∷ b ∷ d) f h = absurd (ground (arith, h))

-- The outputs pay the inputs less `paid`, which is the fee `cal` where the configured one is well
-- above it, and at most the payee's output below it otherwise.
pub record IsOmniPaid (inputs cal fee : ℕ) (from_addr : String) (dest vouts : Dict ℕ) : Type 0 where
  pub paid : ℕ
  pub balance : dest_amount vouts + paid ≡ inputs
  pub at_least : cal ≤ paid + dust
  pub exact : cal + 2 * dust < fee → paid ≡ cal
  pub payees :
      (k : String) → str_eq from_addr k ≡ false → lookup k vouts ≡ lookup k (omni_vouts dest)

insert-others :
    (a k : String) (v : ℕ) (d : Dict ℕ) → str_eq a k ≡ false → lookup k (insert a v d) ≡ lookup k d
insert-others a k v d h = lookup-insert a k v d ∙ ap (λ b. if b then some v else lookup k d) h

module _ (config : FeeConfig) where
  change-cases :
      (a addr : String) (total cal : ℕ)
      → config.fee ≤ total
      → let out = dest_amount (omni_change config a total cal ((addr, dust) ∷ [])) in
        ((out ≡ dust) × (config.fee ≤ cal + dust)) ⊎ (out ≡ total + dust - cal)
  unfolding omni_change dest_amount insert lookup
  change-cases a addr total cal t = elim (Bool-cases (config.fee == cal)) [
    | inl e ↦ rw e (inl (omega arith, ground (arith, e)))
    | inr e ↦ elim (Bool-cases (str_eq addr a)) [
      | inl k ↦ rw (e, k) (inr (ground arith))
      | inr k ↦ elim (Bool-cases (ltb (cal + dust) config.fee)) [
        | inl l ↦ rw (e, k, l) (inr (rw k (ground (arith, l))))
        | inr l ↦ rw (e, k, l) (inl (ground arith, ground (arith, l)))
      ]
    ]
  ]

  change-payees :
      (a k : String) (total cal : ℕ) (vouts : Dict ℕ)
      → str_eq a k ≡ false
      → lookup k (omni_change config a total cal vouts) ≡ lookup k vouts
  unfolding omni_change
  change-payees a k total cal vouts h = elim (Bool-cases (config.fee == cal)) [
    | inl e ↦ rw e refl
    | inr e ↦ elim (Option-cases (lookup a vouts)) [
      | inl n ↦
          rw (e, n)
            (elim (Bool-cases (ltb (cal + dust) config.fee)) [
              | inl l ↦ rw l (insert-others a k _ vouts h)
              | inr l ↦ rw l refl
            ])
      | inr (v, s) ↦ rw (e, s) (insert-others a k _ vouts h)
    ]
  ]

  -- With what the coins hold, the one of 546 included.
  change-paid :
      (a addr : String) (total cal : ℕ) (small : Option TxOut)
      → ((x : TxOut) → small ≡ some x → x.amount ≡ dust)
      → dust ≤ config.fee
      → cal ≤ config.fee
      → config.fee ≤ total
      → (paid : ℕ) × (dest_amount
              (omni_change config a total (dust_fee small cal) ((addr, dust) ∷ []))
            + paid
          ≡ total + small_amount small)
        × (cal ≤ paid + dust)
        × (cal + 2 * dust < config.fee → paid ≡ cal)
  change-paid a addr total cal none f d c t = elim (change-cases a addr total (cal + dust) t) [
    | inl (o, l) ↦ (total - dust, omega arith, omega arith, λ m. omega arith)
    | inr o ↦ (cal, omega arith, omega arith, λ m. refl)
  ]
  change-paid a addr total cal (some x) f d c t =
      let e = f x refl in
      elim (change-cases a addr total cal t) [
        | inl (o, l) ↦ (total, omega arith, omega arith, λ m. omega arith)
        | inr o ↦ (cal, omega arith, omega arith, λ m. refl)
      ]

  change-IsOmniPaid :
      (a : String) (dest : Dict ℕ) (total cal : ℕ) (need : List TxOut) (small : Option TxOut)
      → ((x : TxOut) → small ≡ some x → x.amount ≡ dust)
      → (length (omni_vouts dest) == 1) ≡ true
      → total ≡ sum_by TxOut.amount need
      → dust ≤ config.fee
      → cal ≤ config.fee
      → config.fee ≤ total
      → IsOmniPaid
          (sum_by TxOut.amount (with_546 small need))
          cal
          config.fee
          a
          dest
          (omni_change config a total (dust_fee small cal) (omni_vouts dest))
  change-IsOmniPaid a dest total cal need small f one sum d c t =
      let (addr, v) = single (omni_vouts dest) (lookup-omni_vouts dest) one in
      let (paid, balance, least, exact) = change-paid a addr total cal small f d c t in
      let fee_of = dust_fee small cal in
      record {
        paid = paid;
        balance = omega (
          arith,
          balance,
          ap (λ vs. dest_amount (omni_change config a total fee_of vs)) v,
          sum-with_546 small need,
        );
        at_least = least;
        exact = exact;
        payees = λ k h. change-payees a k total fee_of (omni_vouts dest) h;
      }

  omni_plan_with-paid :
      (property_id : ℕ) (a : String) (dest : Dict ℕ) (total : ℕ) (need : List TxOut)
      (small : Option TxOut) (q : OmniPlan)
      → ((x : TxOut) → small ≡ some x → x.amount ≡ dust)
      → (length (omni_vouts dest) == 1) ≡ true
      → total ≡ sum_by TxOut.amount need
      → dust ≤ config.fee
      → omni_plan_with config property_id a dest (total, need) small ≡ some q
      → IsOmniPaid
          (sum_by TxOut.amount q.vin_need)
          (omni_size_fee config (length q.vin_need) (length (omni_vouts dest)))
          config.fee
          a
          dest
          q.vouts
  unfolding omni_plan_with
  omni_plan_with-paid property_id a dest total need small q f one sum d h =
      let cal = omni_size_fee config (length (with_546 small need)) (length (omni_vouts dest)) in
      elim (Bool-cases (ltb total config.fee || ltb config.fee cal)) [
        | inl e ↦ absurd (none-ne-some q (rw e at h))
        | inr e ↦
            let eq = some-injective _ _ (rw e at h) in
            subst
              (λ (q' : OmniPlan).
                IsOmniPaid (sum_by TxOut.amount q'.vin_need)
                  (omni_size_fee config (length q'.vin_need) (length (omni_vouts dest))) config.fee
                  a dest q'.vouts)
              eq
              (change-IsOmniPaid a dest total cal need small f one sum d (ground (arith, e))
                (ground (arith, e)))
      ]

  -- Whenever a request of USDT is made and the configured fee is 546 units or more, the outputs and
  -- what is paid add up to the inputs. Paid is exactly the fee for the size where the configured one
  -- is more than 1092 above it, and no more than 546 units below that fee otherwise. Every address
  -- but the sender's gets 546 units if it is the payee, and nothing if it is not.
  pub omni_plan-IsOmniPaid :
      (property_id : ℕ) (a : String) (dest : Dict ℕ) (b : OmniBalance) (txout : List TxOut)
      (q : OmniPlan)
      → dust ≤ config.fee
      → omni_plan config property_id a dest b txout ≡ some q
      → IsOmniPaid
          (sum_by TxOut.amount q.vin_need)
          (omni_size_fee config (length q.vin_need) (length (omni_vouts dest)))
          config.fee
          a
          dest
          q.vouts
  unfolding omni_plan
  omni_plan-IsOmniPaid property_id a dest b txout q d h = elim (Bool-cases (length txout == 0)) [
    | inl e ↦ absurd (none-ne-some q (rw e at h))
    | inr e ↦ elim (Bool-cases (length (omni_vouts dest) == 1)) [
      | inr n ↦ absurd (none-ne-some q (rw (e, n) at h))
      | inl n ↦ elim (Bool-cases (is_below b (dest_amount dest))) [
        | inl m ↦ absurd (none-ne-some q (rw (e, n, m) at h))
        | inr m ↦
            let coins = sort_desc txout in
            omni_plan_with-paid property_id a dest _ _ (find_546 coins) q (find_546-amount coins) n
              (take_coins-total config.fee coins 0 ∙ omega arith) d (rw (e, n, m) at h)
      ]
    ]
  ]
