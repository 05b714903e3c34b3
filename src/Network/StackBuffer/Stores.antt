-- ===== src/Network/StackBuffer/Stores.antt =====
-- A reservation at the end of a StackBuffer, and the stores through the pointer that it returns.
use zlnet.Base.{
  ℕ, ◌+◌, ◌-◌, ◌≤◌, ◌<◌, ◌≡◌, refl, ap, arith, List, ◌++◌, length, get_elem?, some, ok, u32_mod,
  splice, ext, get_elem?-take, get_elem?-splice, get_elem?-append, get_elem?-none, length-append,
  copy_in_lem,
}
use zlnet.Network.StackBuffer.{
  StackBuffer, Target, inline, heap, memory, with_memory, reserve, poke,
}
use zlnet.Network.StackBuffer.Laws.{
  IsValid, bytes, length-bytes, overwritten, memory-overwritten, overwritten-IsValid, ensure_lem,
}

pub reserve_lem :
    (junk : ℕ → ℕ) (s : StackBuffer) (pos n : ℕ)
    → IsValid s
    → pos ≡ s.size
    → pos + n < u32_mod
    → (q : StackBuffer) × (reserve junk s pos n ≡ ok (some pos, q))
      × IsValid q
      × (length (bytes q) ≡ pos + n)
unfolding reserve
reserve_lem junk s pos n v at_end w =
    let (c, e, v', z, k, room) = ensure_lem junk (pos + n) v w in
    let q = record c { size = pos + n } in
    let qv : IsValid q = record { storage = v'.storage; word = v'.word; size_in = room } in
    (q, ground (arith, e, z), qv, length-bytes q qv)

pub with_memory_size :
    (s : StackBuffer) (m : List ℕ) → with_memory s m ≡ record (with_memory s m) { size = s.size }
with_memory_size s m = go s.target
  where
    go :
        (t : Target)
        → let d = with_memory (record s { target = t }) m in d ≡ record d { size = s.size }
    go inline = refl
    go (heap _) = refl

pub poke_at :
    (s : StackBuffer) {off : ℕ} (xs ys new zs : List ℕ)
    → IsValid s
    → off ≡ length xs
    → length new ≡ length ys
    → bytes s ≡ xs ++ (ys ++ zs)
    → (q : StackBuffer) × (poke s off new ≡ ok q) × IsValid q × (bytes q ≡ xs ++ (new ++ zs))
unfolding poke
poke_at s {off} xs ys new zs v o k e =
    let l = length-bytes s v in
    let la = length-append xs (ys ++ zs) in
    let lb = length-append ys zs in
    let total : s.size ≡ length xs + length ys + length zs =
      omega (arith, l, la, lb, ap length e) in
    let inside : off + length new ≤ length (memory s) = omega (arith, v.storage, v.size_in) in
    let q = overwritten s off new s.size in
    let (m, _) = memory-overwritten s off new s.size in
    (
      q,
      rw (copy_in_lem (memory s) off new inside)
          (ap ok (with_memory_size s (splice (memory s) off new))),
      overwritten-IsValid s off new s.size v (omega (arith, v.size_in)) v.size_in,
      ext (bytes q) (xs ++ (new ++ zs)) λ i. ground (
        arith,
        m,
        get_elem?-take s.size (memory q) i,
        get_elem?-splice (memory s) off new i inside,
        ap (λ b. get_elem? b i) e,
        get_elem?-take s.size (memory s) i,
        get_elem?-append xs (ys ++ zs) i,
        get_elem?-append xs (new ++ zs) i,
        get_elem?-append ys zs (i - length xs),
        get_elem?-append new zs (i - length xs),
        get_elem?-none zs (i - length xs - length ys),
      ),
    )
