-- ===== src/Wallet/Ether/Laws.antt =====
-- Addresses and balances of the plug-in of ETH, against the numbers that they stand for.
use Prim.Native.Char.{Char}
use native.Mathlib.Nat.{mul-le-mul_right}
use text.Mathlib.TextEquality.{Char-path}
use cross_chain_mid_ware.Base.{
  ℕ, ◌+◌, ◌*◌, ◌≤◌, ◌<◌, ◌≡◌, ◌↔◌, refl, ap, sym, ◌∙◌, String, true, false, arith, if◌then◌else◌,
  inl, inr,
}
use cross_chain_mid_ware.Base.Text.{len}
use cross_chain_mid_ware.Base.Text.Hex.{int16, read_hex}
use cross_chain_mid_ware.Base.Text.Hex.RoundTrip.{hex_limit, is_hex, read_hex-cases, int16-prefixed}
use cross_chain_mid_ware.Base.Result.{Result, ok}
use cross_chain_mid_ware.Wallet.Ether.{check_hex, check_from, eth_validate_address}

check_hex-is_hex : (c : Char) → check_hex c ≡ is_hex c
unfolding check_hex
check_hex-is_hex c = ground arith

-- From the third character on.
check_from-cons :
    (i : ℕ) (c : Char) (s : String)
    → 1 < i
    → check_from i (String.◌∷◌ c s) ≡ (if is_hex c then check_from (i + 1) s else false)
unfolding check_from
check_from-cons i c s h = ground (arith, check_hex-is_hex c)

bound : (acc d n l : ℕ) → d < 16 → n < (acc * 16 + d + 1) * l → n < (acc + 1) * (16 * l)
bound acc d n l h k =
    let le : acc * 16 + d + 1 ≤ (acc + 1) * 16 = omega arith in omega (arith, mul-le-mul_right l le)

-- A text that passes is a number, which its length bounds.
check_from-reads :
    (s : String) (i acc : ℕ)
    → 1 < i
    → check_from i s ≡ true
    → (n : ℕ) × (read_hex acc s ≡ ok n) × (n < (acc + 1) * hex_limit (len s))
unfolding read_hex hex_limit len
check_from-reads String.[] i acc h e = (acc, refl, omega arith)
check_from-reads (String.◌∷◌ c s) i acc h e = elim (read_hex-cases acc c s) [
  | inr (r, k) ↦ absurd (ground (arith, check_from-cons i c s h, e, k))
  | inl (d, r, l, k) ↦
      let (n, v, b) =
        check_from-reads s (i + 1) (acc * 16 + d) (omega arith)
          (ground (arith, check_from-cons i c s h, e, k)) in
      (n, r ∙ v, bound acc d n (hex_limit (len s)) l b)
]

reads-check_from :
    (s : String) (i acc n : ℕ) → 1 < i → read_hex acc s ≡ ok n → check_from i s ≡ true
unfolding check_from
reads-check_from String.[] i acc n h e = refl
reads-check_from (String.◌∷◌ c s) i acc n h e = elim (read_hex-cases acc c s) [
  | inr (r, k) ↦ absurd (cc (r, e))
  | inl (d, r, l, k) ↦
      check_from-cons i c s h
      ∙ ap (λ b. if b then check_from (i + 1) s else false) k
      ∙ reads-check_from s (i + 1) (acc * 16 + d) n (omega arith) (sym r ∙ e)
]

-- The first two characters.
check_from-start :
    (c d : Char) (s : String)
    → check_from 0 (String.◌∷◌ c (String.◌∷◌ d s)) ≡ true
    → (c ≡ "0") × (d ≡ "x") × (check_from 2 s ≡ true)
unfolding check_from
check_from-start c d s h =
    (Char-path c "0" (ground (arith, h)), Char-path d "x" (ground (arith, h)), ground (arith, h))

-- "0x", and 40 characters that are a number.
abbrev pub IsEthAddress : String → Type 0
IsEthAddress addr =
    (s : String) × (addr ≡ String.◌∷◌ "0" (String.◌∷◌ "x" s))
    × (len s ≡ 40)
    × (n : ℕ) × (int16 addr ≡ ok n)
    × (n < hex_limit 40)

valid-IsEthAddress : (addr : String) → eth_validate_address addr ≡ true → IsEthAddress addr
unfolding eth_validate_address len
valid-IsEthAddress String.[] h = cc h
valid-IsEthAddress (String.◌∷◌ c String.[]) h = cc h
valid-IsEthAddress (String.◌∷◌ c (String.◌∷◌ d s)) h =
    let l : len s ≡ 40 = ground (arith, h) in
    let (z, x, rest) = check_from-start c d s (ground (arith, h)) in
    let (n, v, b) = check_from-reads s 2 0 (omega arith) rest in
    let e : String.◌∷◌ c (String.◌∷◌ d s) ≡ String.◌∷◌ "0" (String.◌∷◌ "x" s) = cc (z, x) in
    (s, e, l, n, ap int16 e ∙ int16-prefixed s (omega arith) ∙ v, omega (arith, b, ap hex_limit l))

valid-of_hex :
    (s : String)
    → len s ≡ 40
    → check_from 2 s ≡ true
    → eth_validate_address (String.◌∷◌ "0" (String.◌∷◌ "x" s)) ≡ true
unfolding eth_validate_address len check_from
valid-of_hex s l r = ground (arith, l, r)

IsEthAddress-valid : (addr : String) → IsEthAddress addr → eth_validate_address addr ≡ true
IsEthAddress-valid addr (s, e, l, n, v, b) =
    let r = sym (int16-prefixed s (omega arith)) ∙ sym (ap int16 e) ∙ v in
    ap eth_validate_address e ∙ valid-of_hex s l (reads-check_from s 2 0 n (omega arith) r)

-- A text is taken for an address exactly when it is "0x" and 40 more characters and reads, as a
-- number with base 16, as one below 16 ^ 40.
pub eth_validate_address_lem :
    (addr : String) → (eth_validate_address addr ≡ true) ↔ IsEthAddress addr
eth_validate_address_lem addr = (valid-IsEthAddress addr, IsEthAddress-valid addr)
