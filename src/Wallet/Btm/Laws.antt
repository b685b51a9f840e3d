-- ===== src/Wallet/Btm/Laws.antt =====
-- What a transaction of BTM pays.
use mathlib.Core.Path.{subst}
use mathlib.Core.Option.{some-injective, none-ne-some}
use cross_chain_mid_ware.Base.{
  ℕ, ◌+◌, ◌-◌, ◌*◌, ◌≤◌, ◌<◌, ◌≡◌, refl, ap, ◌∙◌, String, false, ◌||◌, some, List, [], ◌∷◌, arith,
  ltb, leb, ◌==◌, str_eq, eq_iff, if◌then◌else◌, length, sum_by, Bool-cases, inl, inr,
}
use cross_chain_mid_ware.Base.Dict.{Dict, lookup, insert, has_key, add_to, lookup-insert}
use cross_chain_mid_ware.Wallet.Select.{TxOut, select, sort_desc}
use cross_chain_mid_ware.Wallet.Select.Laws.{select-IsSelection}
use cross_chain_mid_ware.Wallet.Outputs.{dest_amount}
use cross_chain_mid_ware.Wallet.Btm.{BtmPlan, first_change, btm_plan, raised_fee, second_change}

dest_amount-add_to :
    (k : String) (v : ℕ) (d : Dict ℕ) → dest_amount (add_to k v d) ≡ dest_amount d + v
unfolding dest_amount add_to
dest_amount-add_to k v [] = omega arith
dest_amount-add_to k v ((j, w) ∷ d) = ground (arith, dest_amount-add_to k v d)

dest_amount-insert_new :
    (k : String) (v : ℕ) (d : Dict ℕ)
    → has_key k d ≡ false
    → dest_amount (insert k v d) ≡ dest_amount d + v
unfolding dest_amount insert has_key
dest_amount-insert_new k v [] h = omega arith
dest_amount-insert_new k v ((j, w) ∷ d) h = ground (arith, dest_amount-insert_new k v d)

lookup-add_to :
    (k j : String) (v : ℕ) (d : Dict ℕ) → str_eq k j ≡ false → lookup j (add_to k v d) ≡ lookup j d
unfolding lookup add_to
lookup-add_to k j v [] h = rw h refl
lookup-add_to k j v ((i, w) ∷ d) h =
    ground (arith, eq_iff i k, eq_iff i j, eq_iff k j, lookup-add_to k j v d h)

-- The outputs pay the inputs less the estimated fee and a tenth, or one unit more; that only where
-- the configured fee leaves no change. The payees get what they are to get.
pub record IsBtmPaid (inputs amount fee est_fee : ℕ) (from_addr : String) (dest vouts : Dict ℕ)
    : Type 0 where
  pub extra : ℕ
  pub balance : dest_amount vouts + raised_fee est_fee ≡ inputs + extra
  pub at_most_one : extra ≤ 1
  pub if_no_change : amount + fee < inputs → extra ≡ 0
  pub below_fee : raised_fee est_fee < fee
  pub payees : (j : String) → str_eq from_addr j ≡ false → lookup j vouts ≡ lookup j dest

first_change-amount :
    (a : String) (n : ℕ) (d : Dict ℕ)
    → (extra : ℕ) × (dest_amount (first_change a n d) ≡ dest_amount d + n + extra)
      × (extra ≤ 1)
      × (0 < n → extra ≡ 0)
unfolding first_change
first_change-amount a n d = elim (Bool-cases (n == 0)) [
  | inl e ↦ elim (Bool-cases (has_key a d)) [
    | inl k ↦ rw (e, k) (0, ground (arith, e), omega arith, λ _. refl)
    | inr k ↦
        rw (e, k)
          (
            1,
            ground (arith, e, dest_amount-insert_new a 1 d k),
            omega arith,
            λ p. ground (arith, e),
          )
  ]
  | inr e ↦ rw e (0, omega (arith, dest_amount-add_to a n d), omega arith, λ _. refl)
]

first_change-payees :
    (a j : String) (n : ℕ) (d : Dict ℕ)
    → str_eq a j ≡ false
    → lookup j (first_change a n d) ≡ lookup j d
unfolding first_change
first_change-payees a j n d h = elim (Bool-cases (n == 0)) [
  | inl e ↦ elim (Bool-cases (has_key a d)) [
    | inl k ↦ rw (e, k) refl
    | inr k ↦ rw (e, k) (lookup-insert a j 1 d ∙ ap (λ b. if b then some 1 else lookup j d) h)
  ]
  | inr e ↦ rw e (lookup-add_to a j n d h)
]

-- What a plan that is made consists of.
btm_plan-made :
    (fee : ℕ) (a : String) (dest : Dict ℕ) (txout : List TxOut) (p : BtmPlan)
    → btm_plan fee a dest txout ≡ some p
    → let inputs = sum_by TxOut.amount p.vin_need in
      (length p.vin_need ≤ 8)
      × (dest_amount dest + fee ≤ inputs)
      × (p.vouts ≡ first_change a (inputs - dest_amount dest - fee) dest)
unfolding btm_plan
btm_plan-made fee a dest txout p h =
    let s = select 20 6 (dest_amount dest + fee) (sort_desc txout) in
    let adds = (select-IsSelection 20 6 (dest_amount dest + fee) (sort_desc txout)).adds_up in
    elim (Bool-cases
      (length txout == 0 || ltb 8 (length s.vin_need) || ltb s.total (dest_amount dest + fee))) [
        | inl e ↦ absurd (none-ne-some p (rw e at h))
        | inr e ↦
            let made : BtmPlan = record {
              vin_need = s.vin_need;
              vouts = first_change a (s.total - dest_amount dest - fee) dest;
            } in
            let q : made ≡ p = some-injective _ _ (rw e at h) in
            subst
              (λ (p' : BtmPlan).
                let inputs = sum_by TxOut.amount p'.vin_need in
                (length p'.vin_need ≤ 8)
                × (dest_amount dest + fee ≤ inputs)
                × (p'.vouts ≡ first_change a (inputs - dest_amount dest - fee) dest))
              q
              (
                ground (arith, e),
                ground (arith, e, adds),
                ap (λ n. first_change a (n - dest_amount dest - fee) dest) adds,
              )
      ]

-- Whenever a request of BTM is made, it has at most eight inputs, it pays the estimated fee and a
-- tenth, which is below the configured one, or a unit less where the configured fee leaves no
-- change; and every payee but the sender gets what it is to get.
pub btm_plan-IsPaid :
    (fee est_fee : ℕ) (a : String) (dest : Dict ℕ) (txout : List TxOut) (p q : BtmPlan)
    → btm_plan fee a dest txout ≡ some p
    → second_change fee a est_fee p ≡ some q
    → (length q.vin_need ≤ 8)
      × IsBtmPaid (sum_by TxOut.amount q.vin_need) (dest_amount dest) fee est_fee a dest q.vouts
unfolding second_change
btm_plan-IsPaid fee est_fee a dest txout p q h1 h2 =
    let (few, enough, made) = btm_plan-made fee a dest txout p h1 in
    elim (Bool-cases (leb (fee * 10) (est_fee * 11))) [
      | inl e ↦ absurd (none-ne-some q (rw e at h2))
      | inr e ↦
          let done : BtmPlan = record p { vouts = add_to a (fee - raised_fee est_fee) p.vouts } in
          let eq : done ≡ q = some-injective _ _ (rw e at h2) in
          subst
            (λ (q' : BtmPlan).
              (length q'.vin_need ≤ 8)
              × IsBtmPaid (sum_by TxOut.amount q'.vin_need) (dest_amount dest) fee est_fee a dest
                  q'.vouts)
            eq (few, paid made enough (ground (arith, e)))
    ]
  where
    paid :
        p.vouts ≡ first_change a (sum_by TxOut.amount p.vin_need - dest_amount dest - fee) dest
        → dest_amount dest + fee ≤ sum_by TxOut.amount p.vin_need
        → raised_fee est_fee < fee
        → IsBtmPaid
            (sum_by TxOut.amount p.vin_need)
            (dest_amount dest)
            fee
            est_fee
            a
            dest
            (add_to a (fee - raised_fee est_fee) p.vouts)
    paid made enough low =
        let (extra, sum, one, zero) =
          first_change-amount a (sum_by TxOut.amount p.vin_need - dest_amount dest - fee) dest in
        record {
          extra = extra;
          balance = omega (
            arith,
            sum,
            ap dest_amount made,
            dest_amount-add_to a (fee - raised_fee est_fee) p.vouts,
          );
          at_most_one = one;
          if_no_change = λ l. zero (omega arith);
          below_fee = low;
          payees = λ j h.
              lookup-add_to a j _ p.vouts h ∙ ap (lookup j) made ∙ first_change-payees a j _ dest h;
        }
