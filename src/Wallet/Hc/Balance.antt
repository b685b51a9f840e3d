-- ===== src/Wallet/Hc/Balance.antt =====
-- The fee that a transaction of `hc_create_transaction` (utils/hc_utils.py) pays.
use mathlib.Core.Path.{subst}
use mathlib.Core.Option.{some-injective, none-ne-some}
use cross_chain_mid_ware.Base.{
  ℕ, ◌+◌, ◌-◌, ◌≤◌, ◌≡◌, ◌⊎◌, inl, inr, refl, String, Bool, true, false, Option, none, some, List,
  arith, ltb, ◌==◌, ==_iff, if◌then◌else◌, length, sum_by, Bool-cases,
}
use cross_chain_mid_ware.Base.Int.{ℤ, pos, ◌+ℤ◌, ◌-ℤ◌, ltb_ℤ, ◌≤ℤ◌, int_laws, parts_of_eq}
use cross_chain_mid_ware.Base.Dict.{Dict, lookup, insert}
use cross_chain_mid_ware.Wallet.Select.{TxOut, Selection, select, sort_desc}
use cross_chain_mid_ware.Wallet.Select.Laws.{select-IsSelection}
use cross_chain_mid_ware.Wallet.Interface.{FeeConfig}
use cross_chain_mid_ware.Wallet.Outputs.{dest_vouts, dest_amount, dust, total_out}
use cross_chain_mid_ware.Wallet.Outputs.Laws.{
  total_out-dest_vouts, length-dest_vouts, total_out-insert_new, total_out-insert_old,
}
use cross_chain_mid_ware.Wallet.SimBtc.{Plan}
use cross_chain_mid_ware.Wallet.Hc.{add_signed_change, hc_cal_fee, hc_settle, hc_plan_from, hc_plan}

-- The outputs fall short of the inputs by `paid` units: at least the computed fee `cal` or at least
-- the configured one `fee`, and at most the computed fee and the dust above it.
pub record IsPaid (inputs cal fee : ℕ) (vouts : Dict ℤ) : Type 0 where
  pub paid : ℕ
  pub balance : total_out vouts +ℤ pos paid ≡ pos inputs
  pub at_least : (cal ≤ paid) ⊎ (fee ≤ paid)
  pub at_most : paid ≤ cal + dust

ltb_ℤ-le : (a b : ℤ) → ltb_ℤ a b ≡ false → b ≤ℤ a
ltb_ℤ-le a b h = ground arith

module _ (config : FeeConfig) where
  change-IsPaid :
      (a : String) (total amount cal : ℕ) (vouts : Dict ℤ)
      → amount + config.fee ≤ total
      → total_out vouts ≡ pos amount
      → IsPaid total cal config.fee (add_signed_change a (pos total -ℤ pos amount -ℤ pos cal) vouts)
  unfolding add_signed_change
  change-IsPaid a total amount cal vouts enough start = split (lookup a vouts) refl
    where
      change : ℤ
      change = pos total -ℤ pos amount -ℤ pos cal

      own :
          lookup a vouts ≡ none
          → (b : Bool) → ltb_ℤ (pos dust) change ≡ b
          → IsPaid total cal config.fee (if b then insert a change vouts else vouts)
      own e true h = record {
        paid = cal;
        balance =
            omega
              (int_laws, parts_of_eq (total_out-insert_new a change vouts e), parts_of_eq start);
        at_least = inl (omega arith);
        at_most = omega arith;
      }
      own e false h = record {
        paid = total - amount;
        balance = omega (int_laws, parts_of_eq start);
        at_least = inr (omega arith);
        at_most = omega (int_laws, ltb_ℤ-le (pos dust) change h, enough);
      }

      split :
          (o : Option ℤ)
          → lookup a vouts ≡ o
          → IsPaid total cal config.fee (add_signed_change a change vouts)
      split none e = rw (e, add_signed_change) (own e (ltb_ℤ (pos dust) change) refl)
      split (some v) e =
          rw (e, add_signed_change)
            (record {
              paid = cal;
              balance = omega (
                int_laws,
                parts_of_eq (total_out-insert_old a (change +ℤ v) v vouts e),
                parts_of_eq start,
              );
              at_least = inl (omega arith);
              at_most = omega arith;
            })

  settle-IsPaid :
      (a : String) (dest : Dict ℕ) (cal : ℕ) (s : Selection)
      → dest_amount dest + config.fee ≤ s.total
      → IsPaid s.total cal config.fee
          (hc_settle config a (dest_amount dest) cal s (dest_vouts dest))
  unfolding hc_settle
  settle-IsPaid a dest cal s enough = elim (Bool-cases (s.total - dest_amount dest == cal)) [
    | inl e ↦ rw e (record {
      paid = cal;
      balance = omega (
        int_laws,
        parts_of_eq (total_out-dest_vouts dest),
        (==_iff (s.total - dest_amount dest) cal).0 e,
      );
      at_least = inl (omega arith);
      at_most = omega arith;
    })
    | inr e ↦ rw e (
        change-IsPaid a s.total (dest_amount dest) cal (dest_vouts dest) enough
          (total_out-dest_vouts dest))
  ]

  plan_from-IsPaid :
      (a : String) (dest : Dict ℕ) (s : Selection) (p : Plan)
      → s.total ≡ sum_by TxOut.amount s.vin_need
      → hc_plan_from config a dest s ≡ some p
      → IsPaid
          (sum_by TxOut.amount p.vin_need)
          (hc_cal_fee config (length p.vin_need) (length dest))
          config.fee
          p.vouts
  unfolding hc_plan_from
  plan_from-IsPaid a dest s p adds h =
      let cal = hc_cal_fee config (length s.vin_need) (length (dest_vouts dest)) in
      elim (Bool-cases (ltb s.total (dest_amount dest + config.fee))) [
        | inl e ↦ absurd (none-ne-some p (rw e at h))
        | inr e ↦
            let made : Plan = record {
              vin_need = s.vin_need;
              vouts = hc_settle config a (dest_amount dest) cal s (dest_vouts dest);
            } in
            let q : made ≡ p = some-injective _ _ (rw e at h) in
            subst
              (λ p'.
                IsPaid (sum_by TxOut.amount p'.vin_need)
                  (hc_cal_fee config (length p'.vin_need) (length dest)) config.fee p'.vouts)
              q (rw (← adds, ← length-dest_vouts dest) (settle-IsPaid a dest cal s (ground arith)))
      ]

  -- Whenever a request is made for HC, what it pays out falls short of the sum of its inputs by at
  -- least the fee computed for its size or at least the configured fee, and by at most the computed
  -- fee and 546 units more.
  pub hc_plan-IsPaid :
      (a : String) (dest : Dict ℕ) (txout : List TxOut) (p : Plan)
      → hc_plan config a dest txout ≡ some p
      → IsPaid
          (sum_by TxOut.amount p.vin_need)
          (hc_cal_fee config (length p.vin_need) (length dest))
          config.fee
          p.vouts
  unfolding hc_plan
  hc_plan-IsPaid a dest txout p h =
      let s = select 15 10 (dest_amount dest + config.fee) (sort_desc txout) in
      elim (Bool-cases (length txout == 0)) [
        | inl e ↦ absurd (none-ne-some p (rw e at h))
        | inr e ↦
            plan_from-IsPaid a dest s p
              (select-IsSelection 15 10 (dest_amount dest + config.fee) (sort_desc txout)).adds_up
              (rw e at h)
      ]
