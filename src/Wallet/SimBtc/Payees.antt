-- ===== src/Wallet/SimBtc/Payees.antt =====
-- Whom `sim_btc_create_transaction` (utils/sim_btc_utils.py) pays, and when it refuses to.
use cross_chain_mid_ware.Base.{
  ℕ, ◌+◌, ◌-◌, ◌≤◌, ◌<◌, ◌≡◌, ◌≢◌, ◌↔◌, inl, inr, refl, String, Bool, true, false, none, some, List,
  [], ◌∷◌, arith, ltb, ◌==◌, if◌then◌else◌, length, sum_by, Bool-cases, str_eq, ltb→lt,
}
use cross_chain_mid_ware.Base.Int.{ℤ}
use cross_chain_mid_ware.Base.Dict.{Dict, lookup}
use cross_chain_mid_ware.Base.DictOrder.{DictOrder}
use cross_chain_mid_ware.Wallet.Select.{TxOut, Selection, select, sort_desc, insert_desc}
use cross_chain_mid_ware.Wallet.Select.Enough.{select-enough}
use cross_chain_mid_ware.Wallet.Interface.{FeeConfig}
use cross_chain_mid_ware.Wallet.Outputs.{dest_vouts, dest_amount}
use cross_chain_mid_ware.Wallet.Outputs.Laws.{lookup-add_change}
use cross_chain_mid_ware.Wallet.SimBtc.{
  Plan, cal_fee, full_send_vouts, settle, plan_from, sim_btc_plan,
}

sum_by-insert_desc :
    (x : TxOut) (xs : List TxOut)
    → sum_by TxOut.amount (insert_desc x xs) ≡ x.amount + sum_by TxOut.amount xs
unfolding insert_desc
sum_by-insert_desc x [] = refl
sum_by-insert_desc x (y ∷ xs) = ground (arith, sum_by-insert_desc x xs)

pub sum_by-sort_desc :
    (xs : List TxOut) → sum_by TxOut.amount (sort_desc xs) ≡ sum_by TxOut.amount xs
unfolding sort_desc
sum_by-sort_desc [] = refl
sum_by-sort_desc (x ∷ xs) = omega (arith, sum_by-insert_desc x (sort_desc xs), sum_by-sort_desc xs)

lt_of_le : {a b c : ℕ} → (a ≤ b → a ≤ c) → c < a → b < a
lt_of_le {a} {b} f h = elim (Bool-cases (ltb b a)) [
  | inl e ↦ ltb→lt b a e
  | inr e ↦ absurd (omega (arith, f (ground arith)))
]

module _ (config : FeeConfig) (order : DictOrder ℤ) where
  settle-lookup :
      (a k : String) (amount : ℕ) (s : Selection) (vouts : Dict ℤ) (cal : ℕ) (p : Plan)
      → str_eq a k ≡ false
      → settle config order a amount s (vouts, cal) ≡ some p
      → lookup k p.vouts ≡ lookup k vouts
  unfolding settle
  settle-lookup a k amount s vouts cal p ne h =
      ground (arith, lookup-add_change a k (s.total - amount - cal) vouts ne)

  -- Without `full_send`, every address but the sender's is paid exactly what dest_info says, and no
  -- address is paid that dest_info does not name.
  pub sim_btc_plan-lookup :
      (a k : String) (dest : Dict ℕ) (is_fast : Bool) (txout : List TxOut) (p : Plan)
      → str_eq a k ≡ false
      → sim_btc_plan config order a dest is_fast false txout ≡ some p
      → lookup k p.vouts ≡ lookup k (dest_vouts dest)
  unfolding sim_btc_plan plan_from
  sim_btc_plan-lookup a k dest is_fast txout p ne h =
      let s = select 8 5 (dest_amount dest + config.fee) (sort_desc txout) in
      ground (
        arith,
        settle-lookup a k (dest_amount dest) s (dest_vouts dest)
            (cal_fee config order is_fast (length s.vin_need) (length (dest_vouts dest))) p ne,
      )

  settle-fee :
      (a : String) (amount : ℕ) (s : Selection) (r : Dict ℤ × ℕ)
      → r.1 ≡ config.fee
      → settle config order a amount s r ≢ none
  unfolding settle
  settle-fee a amount s (vouts, cal) h e = ground arith

  fast_fee :
      (full_send : Bool) (vouts : Dict ℤ)
      → (if full_send then full_send_vouts config order config.fee vouts else (vouts, config.fee)).1
        ≡ config.fee
  unfolding full_send_vouts
  fast_fee true vouts = ground arith
  fast_fee false vouts = refl

  plan_from-refuses :
      (a : String) (dest : Dict ℕ) (full_send : Bool) (s : Selection)
      → (plan_from config order a dest true full_send s ≡ none)
        ↔ (s.total < dest_amount dest + config.fee)
  unfolding plan_from cal_fee
  plan_from-refuses a dest full_send s =
      elim (Bool-cases (ltb s.total (dest_amount dest + config.fee))) [
        | inl e ↦ (λ h. ground arith, λ h. rw e)
        | inr e ↦ (
          λ h. absurd (
              settle-fee a (dest_amount dest) s
                (if full_send
                  then full_send_vouts config order config.fee (dest_vouts dest)
                  else (dest_vouts dest, config.fee))
                (fast_fee full_send (dest_vouts dest)) (rw e at h)),
          λ h. absurd (ground arith),
        )
      ]

  -- With `is_fast`, and a fee above 0, the request is refused exactly when all the outputs of the
  -- sender together do not cover amount and fee.
  pub sim_btc_plan-refuses :
      (a : String) (dest : Dict ℕ) (full_send : Bool) (txout : List TxOut)
      → 0 < config.fee
      → (sim_btc_plan config order a dest true full_send txout ≡ none)
        ↔ (sum_by TxOut.amount txout < dest_amount dest + config.fee)
  unfolding sim_btc_plan
  sim_btc_plan-refuses a dest full_send [] pos_fee = (λ h. omega arith, λ h. refl)
  sim_btc_plan-refuses a dest full_send (x ∷ xs) pos_fee =
      let need = dest_amount dest + config.fee in
      let s = select 8 5 need (sort_desc (x ∷ xs)) in
      let enough = select-enough 8 5 need (sort_desc (x ∷ xs)) (omega arith) in
      let same = sum_by-sort_desc (x ∷ xs) in
      let from = plan_from-refuses a dest full_send s in
      let some_out : (length (x ∷ xs) == 0) ≡ false = ground arith in
      (
        λ h. lt_of_le (λ le. enough.1 (rw same le)) (from.0 (rw some_out at h)),
        λ h. rw some_out (from.1 (lt_of_le (λ le. rw same at (enough.0 le)) h)),
      )
