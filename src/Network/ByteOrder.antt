-- ===== src/Network/ByteOrder.antt =====
-- network/Common.h and network/Common.cpp (the Linux half): the conversions between the order of the
-- bytes in the host's memory and that of the wire. A signed integer and a float are their bits.
pub mod Laws
use zlnet.Base.{
  ℕ, zero, suc, ◌+◌, ◌*◌, ◌/◌, ◌%◌, ◌^◌, List, [], ◌∷◌, Bool, true, false, if◌then◌else◌, ◌==◌,
  get_elem?, some, none,
}
use mathlib.Core.List.{reverse}

pub data Endian : Type 0 where
  big little : Endian

-- The machine: its byte order and `sizeof(unsigned long)`.
pub record Host : Type 0 where
  pub endian : Endian
  pub long_size : ℕ

-- The `n` bytes of `v`, lowest first, and the number that such bytes stand for.
unfoldable pub le_bytes : ℕ → ℕ → List ℕ
le_bytes zero v = []
le_bytes (suc n) v = v % 256 ∷ le_bytes n (v / 256)

unfoldable pub of_le_bytes : List ℕ → ℕ
of_le_bytes [] = 0
of_le_bytes (b ∷ bs) = b + 256 * of_le_bytes bs

-- The `n` bytes of `v`, highest first: the order of the wire.
unfoldable pub be_bytes : ℕ → ℕ → List ℕ
be_bytes n v = reverse (le_bytes n v)

-- How an `n`-byte integer stands in memory.
unfoldable pub to_memory : Endian → ℕ → ℕ → List ℕ
to_memory big n v = be_bytes n v
to_memory little n v = le_bytes n v

unfoldable pub of_memory : Endian → List ℕ → ℕ
of_memory big bs = of_le_bytes (reverse bs)
of_memory little bs = of_le_bytes bs

-- `htons`, `htonl` and `htobe64`, and back: the bytes of the integer are reversed on a little-endian
-- machine.
unfoldable pub swap_to_big : Endian → ℕ → ℕ → ℕ
swap_to_big big n v = v
swap_to_big little n v = of_le_bytes (be_bytes n v)

abbrev first_is : ℕ → List ℕ → Bool
first_is b bs = elim (get_elem? bs 0) [ none ↦ false | some c ↦ c == b ]

-- The first byte of an `unsigned long` that holds 0x12345678 is compared with 0x12.
unfoldable pub check_cpu_endian : Host → Bool
unfolding to_memory be_bytes le_bytes
check_cpu_endian h = first_is 0x12 (to_memory h.endian h.long_size 0x1234_5678)

module _ (h : Host) where
  unfoldable pub host_to_network64 : ℕ → ℕ
  unfolding swap_to_big
  host_to_network64 v = if check_cpu_endian h then v else swap_to_big h.endian 8 v

  unfoldable pub host_to_network32 : ℕ → ℕ
  unfolding swap_to_big
  host_to_network32 v = swap_to_big h.endian 4 v

  unfoldable pub host_to_network16 : ℕ → ℕ
  unfolding swap_to_big
  host_to_network16 v = swap_to_big h.endian 2 v

  unfoldable pub network_to_host64 : ℕ → ℕ
  unfolding swap_to_big
  network_to_host64 v = if check_cpu_endian h then v else swap_to_big h.endian 8 v

  unfoldable pub network_to_host32 : ℕ → ℕ
  unfolding swap_to_big
  network_to_host32 v = swap_to_big h.endian 4 v

  unfoldable pub network_to_host16 : ℕ → ℕ
  unfolding swap_to_big
  network_to_host16 v = swap_to_big h.endian 2 v

  -- The union puns: a float is converted by its bits.
  unfoldable pub host_to_network_float : ℕ → ℕ
  host_to_network_float v = host_to_network32 v

  unfoldable pub host_to_network_double : ℕ → ℕ
  host_to_network_double v = host_to_network64 v

  unfoldable pub network_to_host_float : ℕ → ℕ
  network_to_host_float v = network_to_host32 v

  unfoldable pub network_to_host_double : ℕ → ℕ
  network_to_host_double v = network_to_host64 v
