-- ===== src/Wallet/Outputs.antt =====
-- The outputs of a transaction under construction, `vouts`: amounts by address. An amount may be
-- negative where the source subtracts.
pub mod Laws
use cross_chain_mid_ware.Base.{
  ℕ, ◌+◌, ◌*◌, ◌/◌, String, Option, none, some, List, [], ◌∷◌, ltb, if◌then◌else◌, length, sum_by,
}
use cross_chain_mid_ware.Base.Int.{ℤ, pos, ◌+ℤ◌, ◌-ℤ◌}
use cross_chain_mid_ware.Base.Dict.{Dict, lookup, insert}

-- `vouts[addr] = num` for each entry of `dest_info`.
unfoldable pub dest_vouts : Dict ℕ → Dict ℤ
dest_vouts [] = []
dest_vouts ((addr, num) ∷ d) = (addr, pos num) ∷ dest_vouts d

-- The sum of the amounts of `dest_info`.
unfoldable pub dest_amount : Dict ℕ → ℕ
dest_amount [] = 0
dest_amount ((addr, num) ∷ d) = num + dest_amount d

pub total_out : Dict ℤ → ℤ
total_out [] = pos 0
total_out ((addr, v) ∷ d) = v +ℤ total_out d

-- Change below or at 546 units is left to the miner.
abbrev pub dust : ℕ
dust = 546

-- The change goes back to the sender: on top of what the sender is paid, or as an output of its
-- own unless it is dust.
unfoldable pub add_change : String → ℕ → Dict ℤ → Dict ℤ
add_change from_addr change vouts = elim (lookup from_addr vouts) [
  | some v ↦ insert from_addr (pos change +ℤ v) vouts
  | none ↦ if ltb dust change then insert from_addr (pos change) vouts else vouts
]

-- `math.ceil(size / 1000.0)`
abbrev pub kilobytes : ℕ → ℕ
kilobytes size = (size + 999) / 1000
