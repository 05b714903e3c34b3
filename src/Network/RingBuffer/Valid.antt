-- ===== src/Network/RingBuffer/Valid.antt =====
-- The representation invariant of CRingBuffer, and the byte sequence that a valid ring stands for.
use zlnet.Base.{
  ℕ, ◌+◌, ◌-◌, ◌≤◌, ◌<◌, ◌≡◌, arith, List, ◌++◌, length, take, drop, get_elem?, none, ltb,
  if◌then◌else◌, u32_mod, length-append, length-take, length-drop, get_elem?-append, get_elem?-take,
  get_elem?-drop, length-alloc,
}
use zlnet.Network.RingBuffer.{Ring, create, clear}

-- An index past the end of the array goes round to its beginning.
abbrev pub wrap : ℕ → ℕ → ℕ
wrap cap i = if ltb i cap then i else i - cap

pub record IsValid (r : Ring) : Type 0 where
  pub storage : length r.buff ≡ r.capacity
  pub nonempty : 0 < r.capacity
  pub word : r.capacity < u32_mod
  pub front_in : r.front < r.capacity
  pub size_in : r.size ≤ r.capacity
  pub end_at : r.end ≡ wrap r.capacity (r.front + r.size)

-- The stored bytes, oldest first: `size` of them from `front` on, going round.
abbrev pub contents : Ring → List ℕ
contents r = take r.size (drop r.front r.buff ++ r.buff)

pub length-contents : {r : Ring} → IsValid r → length (contents r) ≡ r.size
length-contents {r} v = omega (
  arith,
  length-take r.size (drop r.front r.buff ++ r.buff),
  length-append (drop r.front r.buff) r.buff,
  length-drop r.front r.buff,
)

pub get_elem?-contents :
    {r : Ring} (i : ℕ)
    → IsValid r
    → get_elem? (contents r) i
      ≡ (if ltb i r.size then get_elem? r.buff (wrap r.capacity (r.front + i)) else none)
get_elem?-contents {r} i v = ground (
  arith,
  get_elem?-take r.size (drop r.front r.buff ++ r.buff) i,
  get_elem?-append (drop r.front r.buff) r.buff i,
  length-drop r.front r.buff,
  get_elem?-drop r.front r.buff i,
)

-- A new ring is valid and empty.
pub create-IsValid :
    (junk : ℕ → ℕ) (capacity : ℕ)
    → 0 < capacity
    → capacity < u32_mod
    → IsValid (create junk capacity)
unfolding create
create-IsValid junk capacity h w = ground (arith, length-alloc junk capacity)

pub clear-IsValid : {r : Ring} → IsValid r → IsValid (clear r)
unfolding clear
clear-IsValid v = ground arith
