-- ===== src/Base/Text/Slices.antt =====
-- Texts taken apart and put together.
use Prim.Native.Nat.{ℕ, zero, suc, ◌+◌}
use Prim.Native.String.{String}
use mathlib.Core.Path.{◌≡◌, refl, sym, ap, ◌∙◌}
use native.Mathlib.Omega.{arith}
use text.Mathlib.TextLemmas.{nil-append, cons-append}
use cross_chain_mid_ware.Base.Text.{◌<>◌, len, prefix, suffix}

pub prefix-append : (s t : String) → prefix (len s) (s <> t) ≡ s
unfolding prefix len
prefix-append String.[] t = refl
prefix-append (String.◌∷◌ c s) t = rw cons-append (ap (λ r. String.◌∷◌ c r) (prefix-append s t))

pub suffix-append : (s t : String) → suffix (len s) (s <> t) ≡ t
unfolding suffix len
suffix-append String.[] t = nil-append t
suffix-append (String.◌∷◌ c s) t = rw cons-append (suffix-append s t)

pub prefix-all : (s : String) → prefix (len s) s ≡ s
unfolding prefix len
prefix-all String.[] = refl
prefix-all (String.◌∷◌ c s) = ap (λ r. String.◌∷◌ c r) (prefix-all s)

suffix-empty : (i : ℕ) → suffix i "" ≡ ""
unfolding suffix
suffix-empty zero = refl
suffix-empty (suc i) = refl

pub suffix-suffix : (i j : ℕ) (s : String) → suffix (i + j) s ≡ suffix j (suffix i s)
unfolding suffix
suffix-suffix zero j s = let e : 0 + j ≡ j = omega arith in ap (λ k. suffix k s) e
suffix-suffix (suc i) j String.[] = suffix-empty (suc i + j) ∙ sym (suffix-empty j)
suffix-suffix (suc i) j (String.◌∷◌ c s) =
    let e : suc i + j ≡ suc (i + j) = omega arith in
    ap (λ k. suffix k (String.◌∷◌ c s)) e ∙ suffix-suffix i j s
