-- ===== src/Network/ByteOrder/Laws.antt =====
-- The conversions of network/Common.cpp, on every machine.
use zlnet.Base.{
  ℕ, zero, suc, ◌/◌, ◌^◌, ◌<◌, ◌≡◌, refl, ap, ◌∙◌, arith, List, [], ◌∷◌, ◌++◌, length,
  if◌then◌else◌, length-append,
}
use native.Mathlib.Nat.{pow-suc}
use mathlib.Core.List.{reverse, reverse-reverse, reverse-cons}
use zlnet.Network.ByteOrder.{
  Endian, big, little, Host, le_bytes, of_le_bytes, be_bytes, to_memory, of_memory, swap_to_big,
  check_cpu_endian, host_to_network64, host_to_network32, host_to_network16, network_to_host64,
  network_to_host32, network_to_host16,
}

abbrev pub AllBytes : List ℕ → Type 0
AllBytes [] = Unit {0}
AllBytes (b ∷ bs) = (b < 256) × AllBytes bs

pub length-le_bytes : (n v : ℕ) → length (le_bytes n v) ≡ n
unfolding le_bytes
length-le_bytes zero v = refl
length-le_bytes (suc n) v = ap suc (length-le_bytes n (v / 256))

pub of_le_bytes-le_bytes : (n v : ℕ) → v < 256 ^ n → of_le_bytes (le_bytes n v) ≡ v
unfolding of_le_bytes le_bytes
of_le_bytes-le_bytes zero v h = omega arith
of_le_bytes-le_bytes (suc n) v h = omega (arith, of_le_bytes-le_bytes n (v / 256) below)
  where
    below : v / 256 < 256 ^ n
    below = omega (arith, rw (pow-suc 256 n) at h)

le_bytes-of_le_bytes : (bs : List ℕ) → AllBytes bs → le_bytes (length bs) (of_le_bytes bs) ≡ bs
unfolding le_bytes of_le_bytes
le_bytes-of_le_bytes [] a = refl
le_bytes-of_le_bytes (b ∷ bs) (h, a) = ground (arith, le_bytes-of_le_bytes bs a)

AllBytes-append : (xs ys : List ℕ) → AllBytes xs → AllBytes ys → AllBytes (xs ++ ys)
AllBytes-append [] ys a b = b
AllBytes-append (x ∷ xs) ys (h, a) b = (h, AllBytes-append xs ys a b)

AllBytes-reverse : (xs : List ℕ) → AllBytes xs → AllBytes (reverse xs)
AllBytes-reverse [] a = tt
AllBytes-reverse (x ∷ xs) (h, a) =
    rw (reverse-cons x xs) (AllBytes-append (reverse xs) (x ∷ []) (AllBytes-reverse xs a) (h, tt))

AllBytes-le_bytes : (n v : ℕ) → AllBytes (le_bytes n v)
unfolding le_bytes
AllBytes-le_bytes zero v = tt
AllBytes-le_bytes (suc n) v = (omega arith, AllBytes-le_bytes n (v / 256))

length-reverse : (xs : List ℕ) → length (reverse xs) ≡ length xs
length-reverse [] = refl
length-reverse (x ∷ xs) =
    omega
      (arith, ap length (reverse-cons x xs), length-append (reverse xs) (x ∷ []), length-reverse xs)

pub length-be_bytes : (n v : ℕ) → length (be_bytes n v) ≡ n
unfolding be_bytes
length-be_bytes n v = length-reverse (le_bytes n v) ∙ length-le_bytes n v

pub AllBytes-be_bytes : (n v : ℕ) → AllBytes (be_bytes n v)
unfolding be_bytes
AllBytes-be_bytes n v = AllBytes-reverse (le_bytes n v) (AllBytes-le_bytes n v)

-- A swapped integer stands in memory highest byte first, on both kinds of machine.
pub to_memory-swap_to_big :
    (e : Endian) (n v : ℕ) → to_memory e n (swap_to_big e n v) ≡ be_bytes n v
unfolding to_memory swap_to_big
to_memory-swap_to_big big n v = refl
to_memory-swap_to_big little n v =
    rw (length-be_bytes n v) at (le_bytes-of_le_bytes (be_bytes n v) (AllBytes-be_bytes n v))

-- And read back from there it is the integer.
pub swap_to_big-of_memory :
    (e : Endian) (n v : ℕ) → v < 256 ^ n → swap_to_big e n (of_memory e (be_bytes n v)) ≡ v
unfolding swap_to_big of_memory be_bytes
swap_to_big-of_memory big n v h = rw (reverse-reverse (le_bytes n v)) (of_le_bytes-le_bytes n v h)
swap_to_big-of_memory little n v h =
    rw (be-be, reverse-reverse (le_bytes n v)) (of_le_bytes-le_bytes n v h)
  where
    be-be : le_bytes n (of_le_bytes (reverse (le_bytes n v))) ≡ reverse (le_bytes n v)
    be-be =
        rw (length-be_bytes n v) at (le_bytes-of_le_bytes (be_bytes n v) (AllBytes-be_bytes n v))

-- `CheckCPUendian` may miss a big-endian machine, where `htobe64` is the identity anyway: the test
-- makes no difference.
check_swap :
    (e : Endian) (n v : ℕ)
    → let h : Host = record { endian = e; long_size = n } in
      (if check_cpu_endian h then v else swap_to_big e 8 v) ≡ swap_to_big e 8 v
unfolding check_cpu_endian swap_to_big
check_swap big n v = ground arith
check_swap little zero v = refl
check_swap little (suc n) v = refl

module _ (h : Host) (v : ℕ) where
  -- On a machine of either byte order and of every length of unsigned long, what hostToNetwork64,
  -- hostToNetwork32 and hostToNetwork16 return stands in memory as the bytes of the argument, the
  -- highest first.
  pub host_to_network_lem :
      (to_memory h.endian 8 (host_to_network64 h v) ≡ be_bytes 8 v)
      × (to_memory h.endian 4 (host_to_network32 h v) ≡ be_bytes 4 v)
      × (to_memory h.endian 2 (host_to_network16 h v) ≡ be_bytes 2 v)
  unfolding host_to_network64 host_to_network32 host_to_network16
  host_to_network_lem = (
    rw (check_swap h.endian h.long_size v) (to_memory-swap_to_big h.endian 8 v),
    to_memory-swap_to_big h.endian 4 v,
    to_memory-swap_to_big h.endian 2 v,
  )

-- On every machine networkToHost64, networkToHost32 and networkToHost16, applied to the integer
-- that the bytes of an unsigned value, the highest first, make in memory, return the value, which
-- is below 2 ^ 64, 2 ^ 32 and 2 ^ 16.
pub network_to_host_lem :
    (h : Host) (u v w : ℕ)
    → u < 2 ^ 64
    → v < 2 ^ 32
    → w < 2 ^ 16
    → (network_to_host64 h (of_memory h.endian (be_bytes 8 u)) ≡ u)
      × (network_to_host32 h (of_memory h.endian (be_bytes 4 v)) ≡ v)
      × (network_to_host16 h (of_memory h.endian (be_bytes 2 w)) ≡ w)
unfolding network_to_host64 network_to_host32 network_to_host16
network_to_host_lem h u v w hu hv hw = (
  rw (check_swap h.endian h.long_size (of_memory h.endian (be_bytes 8 u)))
      (swap_to_big-of_memory h.endian 8 u hu),
  swap_to_big-of_memory h.endian 4 v hv,
  swap_to_big-of_memory h.endian 2 w hw,
)

pub to_memory_one : (e : Endian) (v : ℕ) → to_memory e 1 v ≡ be_bytes 1 v
unfolding to_memory be_bytes le_bytes
to_memory_one big v = refl
to_memory_one little v = refl

pub of_memory_one : (e : Endian) (v : ℕ) → v < 256 → of_memory e (be_bytes 1 v) ≡ v
unfolding of_memory be_bytes le_bytes of_le_bytes
of_memory_one big v h = omega arith
of_memory_one little v h = omega arith
