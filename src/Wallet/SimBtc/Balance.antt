-- ===== src/Wallet/SimBtc/Balance.antt =====
-- The fee of what `sim_btc_create_transaction` (utils/sim_btc_utils.py) asks the node for.
use mathlib.Core.Path.{subst}
use mathlib.Core.Option.{some-injective, none-ne-some}
use cross_chain_mid_ware.Base.{
  ℕ, ◌+◌, ◌-◌, ◌≤◌, ◌≡◌, inl, inr, refl, ap, sym, String, Bool, true, false, some, List, [], ◌∷◌,
  arith, ◌∙◌, ltb, ◌==◌, if◌then◌else◌, length, sum_by, Bool-cases, ==_iff,
}
use cross_chain_mid_ware.Base.Int.{ℤ, pos, ◌+ℤ◌, ◌-ℤ◌, int_laws, parts_of_eq, ℤ-set}
use cross_chain_mid_ware.Base.Dict.{Dict, NodupKeys}
use cross_chain_mid_ware.Base.DictOrder.{DictOrder, lookup-first}
use cross_chain_mid_ware.Wallet.Select.{TxOut, Selection, select, sort_desc}
use cross_chain_mid_ware.Wallet.Select.Laws.{select-IsSelection}
use cross_chain_mid_ware.Wallet.Interface.{FeeConfig}
use cross_chain_mid_ware.Wallet.Outputs.{dest_vouts, dest_amount, add_change, total_out, dust}
use cross_chain_mid_ware.Wallet.Outputs.Laws.{
  total_out-dest_vouts, length-dest_vouts, NodupKeys-dest_vouts, total_out-insert_old,
  total_out-add_change, left_over, left_over-le,
}
use cross_chain_mid_ware.Wallet.SimBtc.{
  Plan, cal_fee, full_send_vouts, settle, plan_from, sim_btc_plan,
}

-- A request pays out `paid` units less than its inputs hold, and `paid` is the fee `cal` or at
-- most the dust above it.
pub record IsBalanced (inputs cal : ℕ) (vouts : Dict ℤ) : Type 0 where
  pub paid : ℕ
  pub balance : total_out vouts +ℤ pos paid ≡ pos inputs
  pub at_least : cal ≤ paid
  pub at_most : paid ≤ cal + dust

-- The outputs `vouts` with the change of `settle`, up to dust that is left over.
record IsSettled (a : String) (change : ℕ) (vouts vouts' : Dict ℤ) : Type 0 where
  left : ℕ
  balance : total_out vouts' +ℤ pos left ≡ total_out vouts +ℤ pos change
  small : left ≤ dust

module _ (config : FeeConfig) (order : DictOrder ℤ) where
  settle-IsSettled :
      (a : String) (amount : ℕ) (s : Selection) (vouts : Dict ℤ) (cal : ℕ) (p : Plan)
      → settle config order a amount s (vouts, cal) ≡ some p
      → (p.vin_need ≡ s.vin_need)
        × (cal ≤ config.fee)
        × IsSettled a (s.total - amount - cal) vouts p.vouts
  unfolding settle
  settle-IsSettled a amount s vouts cal p h = elim (Bool-cases (ltb config.fee cal)) [
    | inl e ↦ absurd (none-ne-some p (rw e at h))
    | inr e ↦ elim (Bool-cases (s.total - amount == cal)) [
      | inl z ↦
          let q : some (record { vin_need = s.vin_need; vouts = vouts }) ≡ some p =
            rw (e, z) at h in
          (
            ap Plan.vin_need (sym (some-injective _ _ q)),
            ground arith,
            rw (← ap Plan.vouts (some-injective _ _ q)) (record {
              left = 0;
              balance = omega (int_laws, (==_iff (s.total - amount) cal).0 z);
              small = omega arith;
            }),
          )
      | inr z ↦
          let q : some (record {
            vin_need = s.vin_need;
            vouts = add_change a (s.total - amount - cal) vouts;
          })
              ≡ some p =
            rw (e, z) at h in
          (
            ap Plan.vin_need (sym (some-injective _ _ q)),
            ground arith,
            rw (← ap Plan.vouts (some-injective _ _ q)) (record {
              left = left_over a (s.total - amount - cal) vouts;
              balance = total_out-add_change a (s.total - amount - cal) vouts;
              small = left_over-le a (s.total - amount - cal) vouts;
            }),
          )
    ]
  ]

  full_send_vouts-total :
      (cal : ℕ) (vouts : Dict ℤ)
      → NodupKeys vouts
      → total_out (full_send_vouts config order cal vouts).0 +ℤ pos cal
        ≡ total_out vouts +ℤ pos (full_send_vouts config order cal vouts).1
  unfolding full_send_vouts
  full_send_vouts-total cal vouts u = split (order.items vouts) refl
    where
      split :
          (l : Dict ℤ)
          → order.items vouts ≡ l
          → total_out (full_send_vouts config order cal vouts).0 +ℤ pos cal
            ≡ total_out vouts +ℤ pos (full_send_vouts config order cal vouts).1
      split [] e = rw (e, full_send_vouts) refl
      split ((k, w) ∷ rest) e =
          rw (e, full_send_vouts)
            (omega (
              int_laws,
              parts_of_eq (
                  total_out-insert_old k (w +ℤ pos config.fee -ℤ pos cal) w vouts
                    (lookup-first order k w rest vouts ℤ-set u e)),
            ))

  settle-balance :
      (a : String) (amount : ℕ) (s : Selection) (r : Dict ℤ × ℕ) (cal : ℕ) (p : Plan)
      → amount + config.fee ≤ s.total
      → s.total ≡ sum_by TxOut.amount s.vin_need
      → total_out r.0 +ℤ pos cal ≡ pos amount +ℤ pos r.1
      → settle config order a amount s r ≡ some p
      → (p.vin_need ≡ s.vin_need) × IsBalanced (sum_by TxOut.amount p.vin_need) cal p.vouts
  settle-balance a amount s (vouts, cal') cal p enough adds start h =
      let (same, within, settled) = settle-IsSettled a amount s vouts cal' p h in
      (
        same,
        record {
          paid = cal + settled.left;
          balance =
              rw same (omega (int_laws, parts_of_eq settled.balance, parts_of_eq start, adds));
          at_least = omega arith;
          at_most = omega (arith, settled.small);
        },
      )

  full_send-start :
      (b : Bool) (cal : ℕ) (dest : Dict ℕ)
      → NodupKeys (dest_vouts dest)
      → let r =
          if b
          then full_send_vouts config order cal (dest_vouts dest)
          else (dest_vouts dest, cal) in
        total_out r.0 +ℤ pos cal ≡ pos (dest_amount dest) +ℤ pos r.1
  full_send-start true cal dest u =
      full_send_vouts-total cal (dest_vouts dest) u ∙ rw total_out-dest_vouts
  full_send-start false cal dest u = rw total_out-dest_vouts

  plan_from-balance :
      (a : String) (dest : Dict ℕ) (is_fast full_send : Bool) (s : Selection) (p : Plan)
      → NodupKeys (dest_vouts dest)
      → s.total ≡ sum_by TxOut.amount s.vin_need
      → plan_from config order a dest is_fast full_send s ≡ some p
      → IsBalanced
          (sum_by TxOut.amount p.vin_need)
          (cal_fee config order is_fast (length p.vin_need) (length dest))
          p.vouts
  unfolding plan_from
  plan_from-balance a dest is_fast full_send s p u adds h =
      let cal = cal_fee config order is_fast (length s.vin_need) (length (dest_vouts dest)) in
      elim (Bool-cases (ltb s.total (dest_amount dest + config.fee))) [
        | inl e ↦ absurd (none-ne-some p (rw e at h))
        | inr e ↦
            let (same, b) =
              settle-balance a (dest_amount dest) s
                (if full_send
                  then full_send_vouts config order cal (dest_vouts dest)
                  else (dest_vouts dest, cal))
                cal p (ground arith) adds (full_send-start full_send cal dest u) (rw e at h) in
            subst
              (λ n.
                IsBalanced (sum_by TxOut.amount p.vin_need)
                  (cal_fee config order is_fast n (length dest)) p.vouts)
              (ap length (sym same)) (rw length-dest_vouts at b)
      ]

  -- Whenever a request is made for a dest_info without repeated addresses, what it pays out falls
  -- short of the sum of its inputs by the fee computed for its number of inputs and outputs, or by
  -- up to 546 units more, with `full_send` too.
  pub sim_btc_plan-IsBalanced :
      (a : String) (dest : Dict ℕ) (is_fast full_send : Bool) (txout : List TxOut) (p : Plan)
      → NodupKeys dest
      → sim_btc_plan config order a dest is_fast full_send txout ≡ some p
      → IsBalanced
          (sum_by TxOut.amount p.vin_need)
          (cal_fee config order is_fast (length p.vin_need) (length dest))
          p.vouts
  unfolding sim_btc_plan
  sim_btc_plan-IsBalanced a dest is_fast full_send txout p u h =
      let s = select 8 5 (dest_amount dest + config.fee) (sort_desc txout) in
      elim (Bool-cases (length txout == 0)) [
        | inl e ↦ absurd (none-ne-some p (rw e at h))
        | inr e ↦
            plan_from-balance a dest is_fast full_send s p (NodupKeys-dest_vouts dest u)
              (select-IsSelection 8 5 (dest_amount dest + config.fee) (sort_desc txout)).adds_up
              (rw e at h)
      ]
