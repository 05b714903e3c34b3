-- ===== src/Network/Tcp/Flush.antt =====
-- handleTcpConWrite: what reaches the socket, and what stays in the output buffer.
use zlnet.Base.{
  ℕ, zero, suc, ◌≤◌, ◌<◌, ◌≡◌, refl, ap, ◌∙◌, List, [], ◌∷◌, ◌++◌, take, drop, some, none, Option,
  Bool, true, false, not, leb, ◌==◌, ◌&&◌, if◌then◌else◌, Bool-cases, lt_cases, inl, inr, Result,
  ok, ◌>>=◌, ◌>>◌, require, arith,
}
use mathlib.Core.List.{append-nil}
use zlnet.Network.RingBuffer.Room.{single_byte, get_readable_vec_size}
use zlnet.Base.Core.{is_some}
use zlnet.Network.Poller.{Epoll, deregister_write_handler}
use zlnet.Network.RingBuffer.{Ring, get_readable_vec}
use zlnet.Network.RingBuffer.Valid.{IsValid, contents}
use zlnet.Network.RingBuffer.Read.{read_confirm_lem}
use zlnet.Network.RingBuffer.Vectors.{gather, get_readable_vec_lem}
use zlnet.Network.Connections.{disconnecting, same_state, Net, Connection, enable_write}
use zlnet.Network.Tcp.{took, failed, iov_max, gathered, given_bytes, returned, write_out}
use zlnet.Network.Tcp.Closing.{shutdown_write, change, polled, set_writing}
use zlnet.Network.Tcp.Handlers.{sent, written_all, handle_con_write}
use zlnet.Network.Tcp.Writes.{put_self, sent_lem, writing_lem}

-- What `writev` gets behind the two regions.
abbrev pub extra_bytes : Ring → List ℕ → List ℕ
extra_bytes r behind = if leb r.size 2 then [] else behind

gathered_lem :
    {r : Ring} (behind : List ℕ)
    → IsValid r
    → 0 < r.size
    → gathered behind r
      ≡ ok (if leb r.size iov_max then some (contents r ++ extra_bytes r behind) else none)
unfolding gathered
gathered_lem {r} behind v h =
    let regions = (get_readable_vec_lem v).0 in
    let q = get_readable_vec r in
    let first : gather q.buff q.readerv0 ++ [] ≡ gather q.buff q.readerv0 =
      append-nil (gather q.buff q.readerv0) in
    let alone : contents r ++ [] ≡ contents r = append-nil (contents r) in
    elim (Bool-cases (r.size == 1)) [
      | inl one ↦ ground (arith, single_byte v, regions, first, alone)
      | inr more ↦ ground (arith, regions, alone)
    ]

-- What the socket took and what is left are what was queued.
write_out-contents :
    {r : Ring} (count : ℕ)
    → IsValid r
    → r.capacity < 0x80000000
    → 0 < count
    → count ≤ r.size
    → (q : Ring) × (write_out r (took count) ≡ ok (count == r.size, q))
      × IsValid q
      × (contents q ≡ drop count (contents r))
unfolding write_out
write_out-contents {r} count v small h fits =
    let same = get_readable_vec_size r in
    let kept = get_readable_vec_lem v in
    let (q, c, d) = read_confirm_lem count kept.3 h (rw same fits) in
    (q, ground (arith, c, same), d.valid, rw (d.bytes, kept.2) refl)

take-nil : (n : ℕ) → take {A = ℕ} n [] ≡ []
take-nil zero = refl
take-nil (suc n) = refl

module _ {K : Type 0} where
  refused_lem :
      (n : Net K) (p : ℕ) (c : Connection)
      → let n1 = sent (change n p c) p [] failed in
        (n1.wire ≡ n.wire ++ (c.io.socket, []) ∷ []) × (n1.objects p ≡ c) × (n1.notes ≡ n.notes)
  unfolding sent change
  refused_lem n p c = (rw (put_self n.objects p c) refl, put_self n.objects p c, refl)

module _ (junk : ℕ → ℕ) {K : Type 0} (epoll : Epoll K) (index : ℕ → ℕ) where
  written_all_lem :
      (n : Net K) (p : ℕ)
      → (n.objects p).has_endpoint ≡ true
      → (m : Net K) × (written_all junk epoll index n p ≡ ok m)
        × (m.wire ≡ n.wire)
        × ((m.objects p).output ≡ (n.objects p).output)
        × ((m.objects p).writing ≡ false)
        × (m.notes ≡ n.notes)
  unfolding written_all shutdown_write
  written_all_lem n p endpoint =
      let n1 = polled (set_writing n p false) p (deregister_write_handler epoll) in
      let m = writing_lem n p false (deregister_write_handler epoll) in
      elim (Bool-cases (same_state (n.objects p).state disconnecting)) [
        | inl closing ↦ (
          record n1 { shutdowns = n1.shutdowns ++ (n1.objects p).io.socket ∷ [] },
          rw (written_all, closing, shutdown_write, m.4, endpoint) refl,
          m.0,
          m.1,
          m.2,
          m.3,
        )
        | inr living ↦ (n1, rw (written_all, living) refl, m.0, m.1, m.2, m.3)
      ]

  -- The buffer after `writev`, and whether all of it was taken.
  write_out_lem :
      {r : Ring} (given : Option (List ℕ)) (count : ℕ)
      → IsValid r
      → r.capacity < 0x80000000
      → 0 < count
      → count < 0x80000000
      → (q : Ring) × (write_out r (returned given (took count))
          ≡ ok (is_some given && count == r.size, q))
        × (contents q
            ≡ (if is_some given && leb count r.size then drop count (contents r) else contents r))
  unfolding write_out
  write_out_lem {r} none count v small h word =
      (get_readable_vec r, refl, (get_readable_vec_lem v).2)
  write_out_lem {r} (some bs) count v small h word = elim (lt_cases r.size count) [
    | inl past ↦ (
      get_readable_vec r,
      ground (arith, get_readable_vec_size r, v.size_in),
      ground (arith, (get_readable_vec_lem v).2),
    )
    | inr within ↦
        let (q, e, valid, held) = write_out-contents count v small h within in
        (q, e, ground (arith, held))
  ]

  sent_given :
      (n : Net K) (p : ℕ) (c : Connection) (given : Option (List ℕ)) (count : ℕ)
      → let n1 = sent (change n p c) p (given_bytes given) (returned given (took count)) in
        (n1.wire ≡ n.wire ++ (c.io.socket, take count (given_bytes given)) ∷ [])
        × (n1.objects p ≡ c)
        × (n1.notes ≡ n.notes)
  sent_given n p c none count = rw (take-nil count) (refused_lem n p c)
  sent_given n p c (some bs) count = sent_lem n p c bs count

  -- The end of the handler, where all was taken or not.
  ends_lem :
      (n : Net K) (p : ℕ) (all : Bool)
      → (n.objects p).has_endpoint ≡ true
      → (n.objects p).writing ≡ true
      → (m : Net K) × ((if all then written_all junk epoll index n p else ok n) ≡ ok m)
        × (m.wire ≡ n.wire)
        × ((m.objects p).output ≡ (n.objects p).output)
        × ((m.objects p).writing ≡ not all)
        × (m.notes ≡ n.notes)
  ends_lem n p true endpoint writing = written_all_lem n p endpoint
  ends_lem n p false endpoint writing = (n, refl, refl, refl, writing, refl)

  passes :
      {a b : Bool} (rest : Result (Net K))
      → a ≡ true
      → b ≡ true
      → (require a >> (require b >> rest)) ≡ rest
  passes rest first second = rw (first, second) refl

  -- What the handler does when `writev` has returned, and before that.
  abbrev taken_rest : Net K → ℕ → ℕ → Option (List ℕ) → Bool × Ring → Result (Net K)
  taken_rest n p count given x =
      let c = record (n.objects p) { output = x.1 } in
      let n1 = sent (change n p c) p (given_bytes given) (returned given (took count)) in
      if x.0 then written_all junk epoll index n1 p else ok n1

  abbrev given_rest : Net K → ℕ → ℕ → Option (List ℕ) → Result (Net K)
  given_rest n p count given =
      write_out (n.objects p).output (returned given (took count)) >>= taken_rest n p count given

  -- The handler for what `writev` is given, with what the socket and the buffer get.
  given_lem :
      (n : Net K) (p : ℕ) (behind : List ℕ) (count : ℕ) (given : Option (List ℕ))
      → enable_write (n.objects p) ≡ true
      → (n.objects p).writing ≡ true
      → (n.objects p).has_endpoint ≡ true
      → IsValid (n.objects p).output
      → (n.objects p).output.capacity < 0x80000000
      → 0 < count
      → count < 0x80000000
      → gathered behind (n.objects p).output ≡ ok given
      → let r = (n.objects p).output in
        let all = is_some given && count == r.size in
        let kept =
          if is_some given && leb count r.size then drop count (contents r) else contents r in
        (n' : Net K) × (handle_con_write junk epoll index n p behind (took count) ≡ ok n')
        × (n'.wire ≡ n.wire ++ ((n.objects p).io.socket, take count (given_bytes given)) ∷ [])
        × (contents (n'.objects p).output ≡ kept)
        × ((n'.objects p).writing ≡ not all)
        × (n'.notes ≡ n.notes)
  unfolding handle_con_write
  given_lem n p behind count given enabled writing endpoint v small h word g =
      let r = (n.objects p).output in
      let (q, e, held) = write_out_lem given count v small h word in
      let c = record (n.objects p) { output = q } in
      let n1 = sent (change n p c) p (given_bytes given) (returned given (took count)) in
      let s = sent_given n p c given count in
      let (m, done, wire, out, flag, notes) =
        ends_lem n1 p (is_some given && count == r.size)
          (ap (λ (x : Connection). x.has_endpoint) s.1 ∙ endpoint)
          (ap (λ (x : Connection). x.writing) s.1 ∙ writing) in
      (
        m,
        passes (gathered behind r >>= given_rest n p count) enabled writing
            ∙ ap (λ (x : Result (Option (List ℕ))). x >>= given_rest n p count) g
            ∙ ap (λ (x : Result (Bool × Ring)). x >>= taken_rest n p count given) e
            ∙ done,
        wire ∙ s.0,
        rw (out, ap (λ (x : Connection). x.output) s.1) held,
        flag,
        notes ∙ s.2,
      )

  -- On a connection that may write and waits for it, with an endpoint and a valid output buffer of
  -- a capacity below 2 ^ 31 that is not empty, where writev returns a number of bytes from 1 to 2
  -- ^ 31 - 1 if it does not refuse: handleTcpConWrite succeeds. Up to 1024 bytes in the buffer,
  -- the socket gets that many of the first of the buffer's bytes, followed, where these are more
  -- than two, by what stands behind the array of the two regions; if they are at most as many as
  -- the buffer has they leave it, and if more, all of it stays there to be sent again. From 1025
  -- bytes on, writev refuses, the socket gets nothing and the buffer stays. The connection stops
  -- waiting for writing where exactly all of it was taken, and the protocol is told nothing.
  pub handle_con_write_lem :
      (n : Net K) (p : ℕ) (behind : List ℕ) (count : ℕ)
      → enable_write (n.objects p) ≡ true
      → (n.objects p).writing ≡ true
      → (n.objects p).has_endpoint ≡ true
      → IsValid (n.objects p).output
      → (n.objects p).output.capacity < 0x80000000
      → 0 < (n.objects p).output.size
      → 0 < count
      → count < 0x80000000
      → let r = (n.objects p).output in
        let fits = leb r.size iov_max in
        (n' : Net K) × (handle_con_write junk epoll index n p behind (took count) ≡ ok n')
        × (n'.wire
            ≡ n.wire
              ++ (
                (n.objects p).io.socket,
                if fits then take count (contents r ++ extra_bytes r behind) else [],
              )
                ∷ [])
        × (contents (n'.objects p).output
            ≡ (if fits && leb count r.size then drop count (contents r) else contents r))
        × ((n'.objects p).writing ≡ not (fits && count == r.size))
        × (n'.notes ≡ n.notes)
  handle_con_write_lem n p behind count enabled writing endpoint v small some_bytes h word =
      let r = (n.objects p).output in
      let g = gathered_lem behind v some_bytes in
      elim (Bool-cases (leb r.size iov_max)) [
        | inl fits ↦
            let taken =
              given_lem n p behind count (some (contents r ++ extra_bytes r behind)) enabled writing
                endpoint v small h word (g ∙ rw fits refl) in
            rw fits taken
        | inr more ↦
            let taken =
              given_lem n p behind count none enabled writing endpoint v small h word
                (g ∙ rw more refl) in
            rw (more, ← take-nil count) taken
      ]
