-- ===== src/Base/Words.antt =====
-- `uint32` arithmetic, and the three uses of memory that the sources make: `new char[n]` and
-- `memcpy` to and from an array.
use Prim.Native.Nat.{ℕ, zero, suc, ◌+◌, ◌-◌, ◌≤◌, ◌%◌, ◌^◌}
use mathlib.Core.Path.{◌≡◌, refl, ap}
use mathlib.Core.List.{List, [], ◌∷◌}
use native.Mathlib.Omega.{arith}
use zlnet.Base.Tests.{leb, if◌then◌else◌}
use zlnet.Base.Lists.{length, splice, slice}
use zlnet.Base.Results.{Result, ok, fault, bounds}

abbrev pub u32_mod : ℕ
u32_mod = 2 ^ 32

abbrev pub add32 : ℕ → ℕ → ℕ
add32 a b = (a + b) % u32_mod

abbrev pub sub32 : ℕ → ℕ → ℕ
sub32 a b = (a + u32_mod - b) % u32_mod

-- `new char[n]`: its bytes are whatever the memory held, `junk i` at index `i`.
pub alloc_from : (ℕ → ℕ) → ℕ → ℕ → List ℕ
alloc_from junk i zero = []
alloc_from junk i (suc n) = junk i ∷ alloc_from junk (suc i) n

unfoldable pub alloc : (ℕ → ℕ) → ℕ → List ℕ
unfolding alloc_from
alloc junk n = alloc_from junk 0 n

length-alloc_from : (junk : ℕ → ℕ) (i n : ℕ) → length (alloc_from junk i n) ≡ n
unfolding alloc_from
length-alloc_from junk i zero = refl
length-alloc_from junk i (suc n) = ap suc (length-alloc_from junk (suc i) n)

pub length-alloc : (junk : ℕ → ℕ) (n : ℕ) → length (alloc junk n) ≡ n
unfolding alloc
length-alloc junk n = length-alloc_from junk 0 n

-- `memcpy(mem + off, src, length src)`.
unfoldable pub copy_in : List ℕ → ℕ → List ℕ → Result (List ℕ)
copy_in mem off src =
    if leb (off + length src) (length mem) then ok (splice mem off src) else fault bounds

-- `memcpy(dst, mem + off, n)`, as the bytes that reach `dst`.
unfoldable pub copy_out : List ℕ → ℕ → ℕ → Result (List ℕ)
copy_out mem off n = if leb (off + n) (length mem) then ok (slice mem off n) else fault bounds

pub copy_in_lem :
    (mem : List ℕ) (off : ℕ) (src : List ℕ)
    → off + length src ≤ length mem
    → copy_in mem off src ≡ ok (splice mem off src)
unfolding copy_in
copy_in_lem mem off src h = ground arith

pub copy_out_lem :
    (mem : List ℕ) (off n : ℕ) → off + n ≤ length mem → copy_out mem off n ≡ ok (slice mem off n)
unfolding copy_out
copy_out_lem mem off n h = ground arith
