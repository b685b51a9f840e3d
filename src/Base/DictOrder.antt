-- ===== src/Base/DictOrder.antt =====
-- The order in which Python 2 iterates over a `dict`. It follows the hash table, so the program
-- can rely on nothing but that each entry comes once.
use Prim.Native.Nat.{ℕ}
use Prim.Native.String.{String}
use mathlib.Core.Path.{◌≡◌, refl, ap, sym, subst}
use mathlib.Core.Bool.{true}
use mathlib.Core.Option.{Option, some}
use mathlib.Core.List.{[], ◌∷◌, Perm, Memᴰ, mem-cons_self}
use mathlib.Core.List.Perm
use mathlib.Core.Logic.{∥∥₁_elim}
use native.Mathlib.Nat.{ℕ_set}
use native.Mathlib.Omega.{arith}
use text.Mathlib.TextEquality.{eq_iff}
use cross_chain_mid_ware.Base.Dict.{Dict, NodupKeys, lookup, has_key}

pub record DictOrder (V : Type 0) : Type 0 where
  pub items : Dict V → Dict V
  pub items-perm : (d : Dict V) → NodupKeys d → Perm (items d) d

module _ {V : Type 0} where
  abbrev key : String × V → String
  key p = p.0

  abbrev value : String × V → V
  value p = p.1

  has_key-Memᴰ : (k : String) (v : V) (d : Dict V) → Memᴰ (k, v) d → has_key k d ≡ true
  unfolding has_key
  has_key-Memᴰ k v [] m = elim m [ ]
  has_key-Memᴰ k v ((j, w) ∷ d) (Memᴰ.head e) = ground (arith, sym (ap key e), eq_iff j k)
  has_key-Memᴰ k v ((j, w) ∷ d) (Memᴰ.tail m) = ground (arith, has_key-Memᴰ k v d m)

  lookup-Memᴰ :
      (k : String) (v : V) (d : Dict V) → NodupKeys d → Memᴰ (k, v) d → lookup k d ≡ some v
  unfolding lookup
  lookup-Memᴰ k v [] u m = elim m [ ]
  lookup-Memᴰ k v ((j, w) ∷ d) u (Memᴰ.head e) = ground (arith, ap key e, ap value e, eq_iff j k)
  lookup-Memᴰ k v ((j, w) ∷ d) u (Memᴰ.tail m) =
      ground (arith, lookup-Memᴰ k v d u.1 m, has_key-Memᴰ k v d m, eq_iff j k)

  -- The first entry of the iteration is an entry of the dict.
  pub lookup-first :
      (o : DictOrder V) (k : String) (v : V) (r d : Dict V)
      → IsSet V
      → NodupKeys d
      → o.items d ≡ (k, v) ∷ r
      → lookup k d ≡ some v
  lookup-first o k v r d s u e =
      let set : IsSet (Option V) = hlevel s in
      ∥∥₁_elim ((Perm.mem_iff (o.items-perm d u)).0 (rw e mem-cons_self))
        (set (lookup k d) (some v)) (lookup-Memᴰ k v d u)

-- A dict of one entry has one order.
pub items-single : (o : DictOrder ℕ) (k : String) (v : ℕ) → o.items ((k, v) ∷ []) ≡ (k, v) ∷ []
unfolding has_key lookup
items-single o k v = cases (o.items ((k, v) ∷ [])) refl
  where
    single : Dict ℕ
    single = (k, v) ∷ []

    same : (l : Dict ℕ) → o.items single ≡ l → Perm l single
    same l e = subst (λ (d : Dict ℕ). Perm d single) e (o.items-perm single (refl, tt))

    cases : (l : Dict ℕ) → o.items single ≡ l → l ≡ single
    cases [] e = absurd (cc (Perm.length-eq (same [] e)))
    cases ((j, w) ∷ []) e =
        let found = lookup-first o j w [] single ℕ_set (refl, tt) e in ground (arith, eq_iff k j)
    cases (x ∷ y ∷ l) e = absurd (cc (Perm.length-eq (same (x ∷ y ∷ l) e)))
