-- ===== src/Network/Tcp/Writes.antt =====
-- tcpSend: what reaches the socket, and what waits in the output buffer.
use zlnet.Base.{
  ℕ, ◌+◌, ◌≤◌, ◌<◌, ◌≡◌, refl, sym, ap, ◌∙◌, List, [], ◌∷◌, ◌++◌, length, take, drop, some, Bool,
  true, not, ◌==◌, ◌&&◌, ◌||◌, Bool-cases, lt_cases, inl, inr, ok, u32_mod, length-drop, drop_all,
  arith,
}
use mathlib.Core.List.{append-nil}
use zlnet.Base.Core.{put}
use zlnet.Network.Poller.{Epoll, IoObject, deregister_write_handler}
use zlnet.Network.RingBuffer.{Ring}
use zlnet.Network.RingBuffer.Valid.{IsValid, contents}
use zlnet.Network.RingBuffer.Write.{contents-write}
use zlnet.Network.Connections.{Net, Connection, enable_send}
use zlnet.Network.Tcp.{took, send_out}
use zlnet.Network.Tcp.Closing.{change, polled, set_writing}
use zlnet.Network.Tcp.Handlers.{sent, tcp_send}

module _ (junk : ℕ → ℕ) where
  -- The bytes that the socket did not take stand behind those in the buffer.
  pub send_out-contents :
      {r : Ring} (bs : List ℕ) (count : ℕ)
      → IsValid r
      → r.size + length bs < u32_mod
      → length bs < 0x80000000
      → 0 < count
      → count ≤ length bs
      → (q : Ring) × (send_out junk r bs (took count) ≡ ok (not (count == length bs), q))
        × IsValid q
        × (contents q ≡ contents r ++ drop count bs)
  unfolding send_out
  send_out-contents {r} bs count v w small h fits = elim (lt_cases count (length bs)) [
    | inr all ↦ (r, ground (arith), v, rw (drop_all count bs all) (sym (append-nil (contents r))))
    | inl part ↦
        let left = length-drop count bs in
        let (q, e, valid, held, _) =
          contents-write junk (drop count bs) v (omega (arith, left)) (omega (arith, left)) in
        (q, ground (arith, e), valid, held)
  ]

pub put_self {ℓ} : {A : Type ℓ} (h : ℕ → A) (p : ℕ) (a : A) → put h p a p ≡ a
unfolding put
put_self h p a = elim (Bool-cases (p == p)) [
  | inl same ↦ rw same refl
  | inr other ↦ absurd (ground arith)
]

module _ {K : Type 0} where
  pub sent_lem :
      (n : Net K) (p : ℕ) (c : Connection) (bs : List ℕ) (count : ℕ)
      → let n1 = sent (change n p c) p bs (took count) in
        (n1.wire ≡ n.wire ++ (c.io.socket, take count bs) ∷ [])
        × (n1.objects p ≡ c)
        × (n1.notes ≡ n.notes)
  unfolding sent change
  sent_lem n p c bs count = (rw (put_self n.objects p c) refl, put_self n.objects p c, refl)

  pub writing_lem :
      (n : Net K) (p : ℕ) (b : Bool) (call : K → IoObject → K × IoObject)
      → let m = polled (set_writing n p b) p call in
        (m.wire ≡ n.wire)
        × ((m.objects p).output ≡ (n.objects p).output)
        × ((m.objects p).writing ≡ b)
        × (m.notes ≡ n.notes)
        × ((m.objects p).has_endpoint ≡ (n.objects p).has_endpoint)
  unfolding polled set_writing change put
  writing_lem n p b call = ground (arith)

module _ (junk : ℕ → ℕ) {K : Type 0} (epoll : Epoll K) (index : ℕ → ℕ) where
  -- On an open connection with a valid output buffer, where onSerialize leaves fewer than 2 ^ 31
  -- bytes, which the buffer's size can count, and the socket takes at least one of them and at
  -- most all: tcpSend succeeds, the bytes taken go to the socket at once, also where the output
  -- buffer holds earlier ones, the rest stands behind those in the output buffer, the connection
  -- waits for writing if it did or if there is a rest, and the protocol is told nothing.
  pub tcp_send_lem :
      (n : Net K) (p : ℕ) (bs : List ℕ) (count : ℕ)
      → enable_send (n.objects p) ≡ true
      → IsValid (n.objects p).output
      → (n.objects p).output.size + length bs < u32_mod
      → length bs < 0x80000000
      → 0 < count
      → count ≤ length bs
      → (n' : Net K) × (tcp_send junk epoll index n p (some bs) (took count) ≡ ok n')
        × (n'.wire ≡ n.wire ++ ((n.objects p).io.socket, take count bs) ∷ [])
        × (contents (n'.objects p).output ≡ contents (n.objects p).output ++ drop count bs)
        × ((n'.objects p).writing ≡ ((n.objects p).writing || not (count == length bs)))
        × (n'.notes ≡ n.notes)
  unfolding tcp_send
  tcp_send_lem n p [] count enabled v w small h fits = absurd (omega arith)
  tcp_send_lem n p (b ∷ bs) count enabled v w small h fits =
      let (q, e, valid, held) = send_out-contents junk (b ∷ bs) count v w small h fits in
      let c = record (n.objects p) { output = q } in
      let n1 = sent (change n p c) p (b ∷ bs) (took count) in
      let s = sent_lem n p c (b ∷ bs) count in
      let output : (n1.objects p).output ≡ q = ap (λ (x : Connection). x.output) s.1 in
      let writing : (n1.objects p).writing ≡ (n.objects p).writing =
        ap (λ (x : Connection). x.writing) s.1 in
      let m = writing_lem n1 p true (deregister_write_handler epoll) in
      elim (Bool-cases (not (count == length (b ∷ bs)) && not (n.objects p).writing)) [
        | inl starts ↦ (
          polled (set_writing n1 p true) p (deregister_write_handler epoll),
          rw (enabled, e, starts) refl,
          m.0 ∙ s.0,
          rw (m.1, output) held,
          ground (arith, m.2),
          m.3 ∙ s.2,
        )
        | inr stays ↦ (n1, rw (enabled, e, stays) refl, s.0, rw output held, ground (arith), s.2)
      ]
