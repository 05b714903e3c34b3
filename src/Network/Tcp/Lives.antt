-- ===== src/Network/Tcp/Lives.antt =====
-- network/TCP_Network.cpp and Network.cpp: whatever the poller, the queue and the timers call on a
-- session.
use zlnet.Base.{
  ℕ, refl, sym, subst, List, [], ◌∷◌, some, none, Option, Bool, true, false, not, ◌&&◌, Result,
  null, assertion, Ensures, Ensures-any, returns, stops, if-Ensures, >>=-Ensures, require-Ensures,
  inl, inr,
}
use zlnet.Network.RingBuffer.{Ring}
use zlnet.Network.Poller.{Epoll, deregister_write_handler}
use zlnet.Network.Poller.Keys.{deregister_write_handler-key}
use zlnet.Network.Connections.{
  disconnecting, same_state, Net, enable_send, ProtocolType, tcp, udp, kcp,
}
use zlnet.Network.Tcp.{Taken, gathered, given_bytes, returned, write_out, send_out, read_in}
use zlnet.Network.Tcp.Closing.{
  change, set_writing, shutdown_write, polled, close_kind, tcp_close, on_force_close,
}
use zlnet.Network.Tcp.Handlers.{sent, written_all, handle_con_read, handle_con_write, tcp_send}
use zlnet.Network.Tcp.Events.{by_protocol, close_key, on_second}
use zlnet.Network.Tcp.Sessions.{
  Life, change-Life, polled-Life, Life-same, close_con-Life, close_connection-Life, forced-Life,
  get_object-Life, own_key, Life-kind,
}

module _ (junk : ℕ → ℕ) {K : Type 0} (epoll : Epoll K) (index : ℕ → ℕ) (slots : List ℕ)
    (p key : ℕ) where
  abbrev pub Lives : Net K → Type 0
  Lives = Life epoll index p key

  -- Other buffers.
  buffers-Lives :
      (n : Net K) (i o : Ring)
      → Lives n
      → Lives (change n p (record (n.objects p) { input = i; output = o }))
  buffers-Lives n i o l = change-Life epoll index p key n _ refl refl refl l

  pub handle_con_read-Lives :
      (unserialize : Ring → Result (Bool × Ring)) (n : Net K) (received : Option (List ℕ))
      → Lives n
      → Ensures Lives (handle_con_read junk epoll index unserialize n p received)
  unfolding handle_con_read
  handle_con_read-Lives u n none l = require-Ensures _ _ (returns (buffers-Lives n _ _ l))
  handle_con_read-Lives u n (some []) l =
      require-Ensures _ _ (close_con-Life epoll index p key _ true (buffers-Lives n _ _ l))
  handle_con_read-Lives u n (some (b ∷ bs)) l = require-Ensures _ _ (
      >>=-Ensures _ (Ensures-any (read_in junk (n.objects p).input (b ∷ bs))) (λ r _.
        >>=-Ensures _ (Ensures-any (u r)) (λ x _.
          if-Ensures x.0 _ _ (returns (buffers-Lives n _ _ l))
            (close_con-Life epoll index p key _ true (buffers-Lives n _ _ l)))))

  shutdown_write-Lives : (n : Net K) → Lives n → Ensures Lives (shutdown_write n p)
  unfolding shutdown_write
  shutdown_write-Lives n l =
      if-Ensures (n.objects p).has_endpoint _ _
        (returns (Life-same epoll index p key n _ refl refl refl l)) (stops null)

  set_writing-Lives : (n : Net K) (b : Bool) → Lives n → Lives (set_writing n p b)
  unfolding set_writing
  set_writing-Lives n b l = change-Life epoll index p key n _ refl refl refl l

  toggled-Lives :
      (n : Net K) (b : Bool)
      → Lives n
      → Lives (polled (set_writing n p b) p (deregister_write_handler epoll))
  toggled-Lives n b l =
      polled-Life epoll index p key _ (deregister_write_handler epoll)
        (deregister_write_handler-key epoll) (set_writing-Lives n b l)

  written_all-Lives : (n : Net K) → Lives n → Ensures Lives (written_all junk epoll index n p)
  unfolding written_all
  written_all-Lives n l =
      let m = toggled-Lives n false l in
      if-Ensures (same_state (n.objects p).state disconnecting) _ _ (shutdown_write-Lives _ m)
        (returns m)

  sent-Lives :
      (n : Net K) (r : Ring) (bs : List ℕ) (taken : Taken)
      → Lives n
      → Lives (sent (change n p (record (n.objects p) { output = r })) p bs taken)
  unfolding sent
  sent-Lives n r bs taken l = Life-same epoll index p key _ _ refl refl refl (buffers-Lives n _ r l)

  pub handle_con_write-Lives :
      (n : Net K) (behind : List ℕ) (taken : Taken)
      → Lives n
      → Ensures Lives (handle_con_write junk epoll index n p behind taken)
  unfolding handle_con_write
  handle_con_write-Lives n behind taken l = require-Ensures _ _ (
      require-Ensures _ _ (
        >>=-Ensures _ (Ensures-any (gathered behind (n.objects p).output)) (λ given _.
          let count = returned given taken in
          >>=-Ensures _ (Ensures-any (write_out (n.objects p).output count)) (λ x _.
            let m = sent-Lives n x.1 (given_bytes given) count l in
            if-Ensures x.0 _ _ (written_all-Lives _ m) (returns m)))))

  pub tcp_send-Lives :
      (n : Net K) (serialized : Option (List ℕ)) (taken : Taken)
      → Lives n
      → Ensures Lives (tcp_send junk epoll index n p serialized taken)
  unfolding tcp_send
  tcp_send-Lives n none taken l =
      if-Ensures (not (enable_send (n.objects p))) _ _ (returns l)
        (close_con-Life epoll index p key n true l)
  tcp_send-Lives n (some []) taken l = returns l
  tcp_send-Lives n (some (b ∷ bs)) taken l =
      if-Ensures (not (enable_send (n.objects p))) _ _ (returns l) (
        >>=-Ensures _ (Ensures-any (send_out junk (n.objects p).output (b ∷ bs) taken)) (λ x _.
          let m = sent-Lives n x.1 (b ∷ bs) taken l in
          if-Ensures (x.0 && not (n.objects p).writing) _ _ (returns (toggled-Lives _ true m))
            (returns m)))

  pub by_protocol-Lives :
      (t : ProtocolType) (n : Net K) (r : Result (Net K))
      → Lives n
      → Ensures Lives r
      → Ensures Lives (by_protocol junk epoll index slots t n r)
  unfolding by_protocol
  by_protocol-Lives tcp n r l h = h
  by_protocol-Lives kcp n r l h = returns l
  by_protocol-Lives udp n r l h = stops assertion

  tcp_close-Lives :
      (n : Net K) (force : Bool) → Lives n → Ensures Lives (tcp_close epoll index n key force)
  unfolding tcp_close close_kind
  tcp_close-Lives n force l = elim (get_object-Life epoll index p key n l) [
    | inl found ↦
        rw (tcp_close, found)
          (subst (λ k. Ensures Lives (close_kind epoll index k n p force))
            (sym (Life-kind epoll index p key n l))
            (close_connection-Life epoll index p key n force l))
    | inr missing ↦ rw (tcp_close, missing) (stops null)
  ]

  pub close_key-Lives :
      (n : Net K) → Lives n → Ensures Lives (close_key junk epoll index slots n key)
  unfolding close_key
  close_key-Lives n l = elim (get_object-Life epoll index p key n l) [
    | inl found ↦ rw (close_key, found) (by_protocol-Lives _ n _ l (tcp_close-Lives n false l))
    | inr missing ↦ rw (close_key, missing) (returns l)
  ]

  pub on_second-Lives :
      (n : Net K) (stays : Bool)
      → Lives n
      → Ensures Lives (on_second junk epoll index slots n p stays)
  unfolding on_second
  on_second-Lives n stays l =
      if-Ensures stays _ _ (returns l) (rw (own_key epoll index p key n l) (close_key-Lives n l))

  pub on_force_close-Lives : (n : Net K) → Lives n → Ensures Lives (on_force_close epoll index n p)
  unfolding on_force_close
  on_force_close-Lives n l = elim (get_object-Life epoll index p key n l) [
    | inl found ↦
        rw (on_force_close, own_key epoll index p key n l, found)
          (forced-Life epoll index p key n l)
    | inr missing ↦ rw (on_force_close, own_key epoll index p key n l, missing) (returns l)
  ]
