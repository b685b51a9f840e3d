-- ===== src/Collector/Scan/Spec.antt =====
-- The two passes against a description of their result that does not depend on the order of steps.
use cross_chain_mid_ware.Base.{
  ℕ, ◌≡◌, refl, ap, String, Bool, true, false, ◌&&◌, List, [], ◌∷◌, arith, str_eq, eq_iff,
  if◌then◌else◌, Bool-cases, inl, inr,
}
use cross_chain_mid_ware.Base.Dict.{Dict, has_key, add_to}
use cross_chain_mid_ware.Collector.Scan.{
  Entry, Scan, start, elem, add_in, add_out, add_ins, add_outs,
}

-- The values by address, summed up.
unfoldable pub totals_onto : List Entry → Dict ℕ → Dict ℕ
totals_onto [] d = d
totals_onto (e ∷ es) d = totals_onto es (add_to e.address e.value d)

abbrev pub totals : List Entry → Dict ℕ
totals es = totals_onto es []

-- The outputs that do not go back to an input's address.
unfoldable pub payments : Dict ℕ → List Entry → List Entry
payments in_set [] = []
payments in_set (e ∷ es) =
    let rest = payments in_set es in if has_key e.address in_set then rest else e ∷ rest

-- The multisig addresses among the entries, in order.
unfoldable pub links : List String → List Entry → List String
links multisig [] = []
links multisig (e ∷ es) =
    let rest = links multisig es in if elem e.address multisig then e.address ∷ rest else rest

abbrev pub first : List String → String
first [] = ""
first (a ∷ rest) = a

abbrev pub all_are : String → List String → Bool
all_are a [] = true
all_are a (b ∷ bs) = if str_eq a b then all_are a bs else false

abbrev pub all_same : List String → Bool
all_same [] = true
all_same (a ∷ rest) = all_are a rest

abbrev pub is_empty : List String → Bool
is_empty [] = true
is_empty (a ∷ rest) = false

abbrev pub at_most_one : List String → Bool
at_most_one [] = true
at_most_one (a ∷ rest) = is_empty rest

-- What there is to find in inputs `ins` and outputs `outs`.
abbrev pub scanned : List String → List Entry → List Entry → Scan
scanned multisig ins outs =
    let paid = payments (totals ins) outs in
    record {
      in_set = totals ins;
      out_set = totals paid;
      multisig_in = first (links multisig ins);
      multisig_out = first (links multisig paid);
      is_valid = all_same (links multisig ins) && at_most_one (links multisig paid);
    }

module _ (multisig : List String) where
  add_ins-sets :
      (es : List Entry) (s : Scan)
      → ((add_ins multisig es s).in_set ≡ totals_onto es s.in_set)
        × ((add_ins multisig es s).out_set ≡ s.out_set)
        × ((add_ins multisig es s).multisig_out ≡ s.multisig_out)
  unfolding add_ins add_in totals_onto
  add_ins-sets [] s = (refl, refl, refl)
  add_ins-sets (e ∷ es) s = ground (arith, add_ins-sets es (add_in multisig e s))

  add_ins-after :
      (es : List Entry) (s : Scan)
      → str_eq s.multisig_in "" ≡ false
      → ((add_ins multisig es s).multisig_in ≡ s.multisig_in)
        × ((add_ins multisig es s).is_valid
            ≡ (s.is_valid && all_are s.multisig_in (links multisig es)))
  unfolding add_ins add_in links
  add_ins-after [] s h = ground arith
  add_ins-after (e ∷ es) s h = ground (arith, add_ins-after es (add_in multisig e s))

  add_outs-sets :
      (es : List Entry) (s : Scan)
      → ((add_outs multisig es s).in_set ≡ s.in_set)
        × ((add_outs multisig es s).out_set ≡ totals_onto (payments s.in_set es) s.out_set)
        × ((add_outs multisig es s).multisig_in ≡ s.multisig_in)
  unfolding add_outs add_out payments totals_onto
  add_outs-sets [] s = (refl, refl, refl)
  add_outs-sets (e ∷ es) s = ground (arith, add_outs-sets es (add_out multisig e s))

  add_outs-after :
      (es : List Entry) (s : Scan)
      → str_eq s.multisig_out "" ≡ false
      → ((add_outs multisig es s).multisig_out ≡ s.multisig_out)
        × ((add_outs multisig es s).is_valid
            ≡ (s.is_valid && is_empty (links multisig (payments s.in_set es))))
  unfolding add_outs add_out links payments
  add_outs-after [] s h = ground arith
  add_outs-after (e ∷ es) s h = ground (arith, add_outs-after es (add_out multisig e s))

  -- The empty text marks that no multisig address has been met, so it must not be one.
  module _ (no_empty : elem "" multisig ≡ false) where
    pub link-ne_empty : (a : String) → elem a multisig ≡ true → str_eq a "" ≡ false
    link-ne_empty a h = elim (Bool-cases (str_eq a "")) [
      | inl e ↦ cc (ap (λ (b : String). elem b multisig) ((eq_iff a "").0 e))
      | inr e ↦ e
    ]

    add_ins-before :
        (es : List Entry) (s : Scan)
        → s.multisig_in ≡ ""
        → ((add_ins multisig es s).multisig_in ≡ first (links multisig es))
          × ((add_ins multisig es s).is_valid ≡ (s.is_valid && all_same (links multisig es)))
    unfolding add_ins add_in links
    add_ins-before [] s h = ground arith
    add_ins-before (e ∷ es) s h = elim (Bool-cases (elem e.address multisig)) [
      | inl l ↦ ground (
        arith,
        add_ins-after es (add_in multisig e s),
        link-ne_empty e.address l,
        eq_iff s.multisig_in "",
        eq_iff s.multisig_out "",
      )
      | inr l ↦ ground (arith, add_ins-before es (add_in multisig e s))
    ]

    add_outs-before :
        (es : List Entry) (s : Scan)
        → s.multisig_out ≡ ""
        → ((add_outs multisig es s).multisig_out ≡ first (links multisig (payments s.in_set es)))
          × ((add_outs multisig es s).is_valid
              ≡ (s.is_valid && at_most_one (links multisig (payments s.in_set es))))
    unfolding add_outs add_out links payments
    add_outs-before [] s h = ground arith
    add_outs-before (e ∷ es) s h = elim (Bool-cases (elem e.address multisig)) [
      | inl l ↦ ground (
        arith,
        add_outs-after es (add_out multisig e s),
        add_outs-before es (add_out multisig e s),
        link-ne_empty e.address l,
        eq_iff s.multisig_in "",
        eq_iff s.multisig_out "",
      )
      | inr l ↦ ground (arith, add_outs-before es (add_out multisig e s))
    ]

    -- Where the empty text is no multisig address: what the two passes find in inputs `ins` and outputs `outs`: the sums by address, of the
    -- outputs only those that do not go back to an input's address; on each side the first multisig
    -- address, or the empty text; and the transaction is valid exactly when all inputs from multisig
    -- addresses have the same address and at most one of the outputs counted goes to a multisig
    -- address.
    pub scan_lem :
        (ins outs : List Entry)
        → add_outs multisig outs (add_ins multisig ins start) ≡ scanned multisig ins outs
    scan_lem ins outs =
        let t = add_ins multisig ins start in
        let u = add_outs multisig outs t in
        let (i1, i2, i3) = add_ins-sets ins start in
        let (b1, b2) = add_ins-before ins start refl in
        let (o1, o2, o3) = add_outs-sets outs t in
        let (p1, p2) = add_outs-before outs t i3 in
        ground (arith, ap (λ (d : Dict ℕ). payments d outs) i1)
