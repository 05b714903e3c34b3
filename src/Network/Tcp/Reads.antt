-- ===== src/Network/Tcp/Reads.antt =====
-- handleTcpConRead: the input buffer after a read, for each number of regions that `readv` gets.
use zlnet.Base.{
  ℕ, ◌+◌, ◌*◌, ◌≤◌, ◌<◌, ◌≡◌, refl, sym, ap, ◌∙◌, List, [], ◌∷◌, ◌++◌, length, take, drop, ◌==◌,
  if◌then◌else◌, lt_cases, inl, inr, Result, ok, ◌>>=◌, add32, sub32, take_all, length-take,
  length-drop, length-append, take-append-drop, arith,
}
use mathlib.Core.List.{append_assoc, append-nil}
use zlnet.Network.RingBuffer.{Ring, get_writeable_vec, write_confirm, write}
use zlnet.Network.RingBuffer.Valid.{IsValid, contents, length-contents}
use zlnet.Network.RingBuffer.Write.{contents-write}
use zlnet.Network.RingBuffer.Vectors.{scatter, write_confirm_lem}
use zlnet.Network.RingBuffer.Room.{room, room-le, get_writeable_vec-contents, scatter_none}
use zlnet.Network.Tcp.{extra_len, offered, take_in, read_in}

-- What the regions hold together.
abbrev pub sum : List ℕ → ℕ
sum [] = 0
sum (x ∷ xs) = x + sum xs

-- There is an extra buffer only where the regions are shorter than it.
sum-offered :
    {r : Ring}
    → IsValid r
    → r.capacity < 0x80000000
    → room r < sum (offered (get_writeable_vec r))
    → sum (offered (get_writeable_vec r)) ≤ 2 * extra_len
unfolding offered
sum-offered {r} v small past = ground (arith, room-le v)

module _ (junk : ℕ → ℕ) where
  abbrev after : Ring → List ℕ → Ring → Result Ring
  after r bs f =
      take_in junk f (room r)
        (add32 (get_writeable_vec r).writerv0.len (get_writeable_vec r).writerv1.len) bs

  read_in-after :
      (r f : Ring) (bs : List ℕ)
      → scatter (get_writeable_vec r) (take (room r) bs) ≡ ok f
      → read_in junk r bs ≡ after r bs f
  unfolding read_in
  read_in-after r f bs s = ap (λ (x : Result Ring). x >>= after r bs) s

  -- The bytes fit into the regions.
  after_fits :
      (r f : Ring) (bs : List ℕ)
      → room r < 0x80000000
      → length bs ≤ room r
      → after r bs f ≡ write_confirm f (length bs)
  unfolding take_in
  after_fits r f bs small fits = ground (arith)

  -- The bytes go past the regions.
  after_past :
      (r f : Ring) (bs : List ℕ)
      → room r < 0x80000000
      → room r < length bs
      → length bs < 0x80000000
      → after r bs f ≡ (
          (if room r == 0 then ok f else write_confirm f (room r)) >>= λ g.
          write junk g (drop (room r) bs))
  unfolding take_in
  after_past r f bs small past bound =
      let enough : length (drop (room r) bs) ≤ sub32 (length bs) (room r) =
        omega (arith, length-drop (room r) bs) in
      ground (arith, take_all (sub32 (length bs) (room r)) (drop (room r) bs) enough)

  -- The regions' part is confirmed, where there is one.
  regions_filled :
      {r : Ring} (bs : List ℕ)
      → IsValid r
      → length bs ≡ room r
      → (f g : Ring) × (scatter (get_writeable_vec r) bs ≡ ok f)
        × ((if room r == 0 then ok f else write_confirm f (room r)) ≡ ok g)
        × IsValid g
        × (contents g ≡ contents r ++ bs)
  regions_filled {r} [] v e =
      let kept = get_writeable_vec-contents v in
      let q = get_writeable_vec r in
      (q, q, scatter_none v, rw (sym e) refl, kept.0, kept.1 ∙ sym (append-nil (contents r)))
  regions_filled {r} (b ∷ bs) v e =
      let (f, g, s, c, valid, held) = write_confirm_lem (b ∷ bs) v (omega arith) (omega arith) in
      (f, g, s, ground (arith), valid, held)

  -- Where a valid input buffer has a capacity below 2 ^ 31, and readv delivers at least one byte
  -- and at most what the regions that handleTcpConRead offers hold, the extra buffer included: the
  -- buffer stays valid, and its contents are those it held followed by the bytes delivered.
  pub read_in-contents :
      {r : Ring} (bs : List ℕ)
      → IsValid r
      → r.capacity < 0x80000000
      → 0 < length bs
      → length bs ≤ sum (offered (get_writeable_vec r))
      → (q : Ring) × (read_in junk r bs ≡ ok q) × IsValid q × (contents q ≡ contents r ++ bs)
  read_in-contents {r} bs v small h fits = elim (lt_cases (room r) (length bs)) [
    | inr within ↦
        let (f, q, s, c, valid, held) = write_confirm_lem bs v h within in
        (
          q,
          read_in-after r f bs (rw (take_all (room r) bs within) s)
              ∙ after_fits r f bs (omega (arith, room-le v)) within
              ∙ c,
          valid,
          held,
        )
    | inl past ↦
        let first = take (room r) bs in
        let rest = drop (room r) bs in
        let (f, g, s, c, valid, held) =
          regions_filled first v (omega (arith, length-take (room r) bs)) in
        let size : g.size ≡ r.size + room r = omega (
          arith,
          length-contents valid,
          length-contents v,
          ap (length {A = ℕ}) held,
          length-append (contents r) first,
          length-take (room r) bs,
        ) in
        let (q, w, valid', held', _) =
          contents-write junk rest valid (omega (arith, length-drop (room r) bs)) (
            omega (
              arith,
              length-drop (room r) bs,
              size,
              sum-offered v small (omega arith),
              room-le v,
            )) in
        (
          q,
          read_in-after r f bs s
              ∙ after_past r f bs (omega (arith, room-le v)) past
                  (omega (arith, sum-offered v small (omega arith), room-le v))
              ∙ ap (λ (x : Result Ring). x >>= λ y. write junk y rest) c
              ∙ w,
          valid',
          held'
              ∙ ap (λ (x : List ℕ). x ++ rest) held
              ∙ append_assoc (contents r) first rest
              ∙ ap (λ (x : List ℕ). contents r ++ x) (take-append-drop (room r) bs),
        )
  ]
