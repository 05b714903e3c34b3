-- ===== src/Network/Tcp/Events.antt =====
-- network/Network.cpp: what the network's thread does with the events of its queue.
use zlnet.Base.{
  ℕ, List, [], ◌∷◌, Option, none, some, Bool, false, Result, ok, fault, assertion, ◌>>=◌,
  if◌then◌else◌,
}
use zlnet.Network.IoEvents.{
  IoEvent, listen_event, connect_event, data_event, close_event, clear_event,
}
use zlnet.Network.Poller.{Epoll}
use zlnet.Network.Connections.{
  ProtocolType, tcp, udp, kcp, Net, key_of, get_object, get_group_object,
}
use zlnet.Network.Tcp.{Taken}
use zlnet.Network.Tcp.Closing.{tcp_close}
use zlnet.Network.Tcp.Handlers.{tcp_send, tcp_listen, tcp_connect}

-- What the system and the protocol answer while one event is processed: the socket that is made, what
-- `bind` and `listen` return, the bytes that onSerialize leaves and how many of them the socket takes;
-- `fresh` is the pointer of the pool's next object.
pub record Answers : Type 0 where
  pub socket : ℕ
  pub has_socket : Bool
  pub bound : ℕ
  pub listening : ℕ
  pub serialized : Option (List ℕ)
  pub taken : Taken
  pub fresh : ℕ

-- The key and the type of the protocol at a pointer.
pub record Protocols : Type 0 where
  pub key_at : ℕ → ℕ
  pub type_at : ℕ → ProtocolType

module _ (junk : ℕ → ℕ) {K : Type 0} (epoll : Epoll K) (index : ℕ → ℕ) (slots : List ℕ) where
  -- The switches over the type of a protocol: KCP does nothing, and no other type is known.
  unfoldable pub by_protocol : ProtocolType → Net K → Result (Net K) → Result (Net K)
  by_protocol tcp n r = r
  by_protocol kcp n r = ok n
  by_protocol udp n r = fault assertion

  -- `_close`
  unfoldable pub close_key : Net K → ℕ → Result (Net K)
  unfolding by_protocol
  close_key n key = elim (get_object index n key) [
    | none ↦ ok n
    | some p ↦ by_protocol (n.objects p).protocol_type n (tcp_close epoll index n key false)
  ]

  -- `_clear`, over the objects that the group had at its start.
  unfoldable pub close_objects : Net K → List ℕ → Result (Net K)
  close_objects n [] = ok n
  close_objects n (p ∷ ps) = close_key n (key_of n p) >>= λ n'. close_objects n' ps

  unfoldable pub clear_group : Net K → ℕ → Result (Net K)
  unfolding close_objects
  clear_group n group = close_objects n (get_group_object slots group n)

  unfoldable pub process_data_event : Answers → Net K → ℕ → Result (Net K)
  unfolding by_protocol
  process_data_event a n key = elim (get_object index n key) [
    | none ↦ ok n
    | some p ↦
        by_protocol (n.objects p).protocol_type n
          (tcp_send junk epoll index n p a.serialized a.taken)
  ]

  unfoldable pub process_listen : Protocols → Answers → Net K → ℕ → Result (Net K)
  unfolding by_protocol
  process_listen ps a n protocol = by_protocol (ps.type_at protocol) n (
      tcp_listen junk epoll index n (ps.key_at protocol)
        (if a.has_socket then some a.socket else none) a.bound a.listening a.fresh)

  unfoldable pub process_connect : Protocols → Answers → Net K → ℕ → Result (Net K)
  unfolding by_protocol
  process_connect ps a n protocol =
      by_protocol (ps.type_at protocol) n
        (tcp_connect junk epoll index n (ps.key_at protocol) a.socket a.fresh)

  unfoldable pub dispatch_process :
      {D : Type 0} → Protocols → Answers → Net K → IoEvent D → Result (Net K)
  unfolding process_listen process_connect process_data_event close_key clear_group
  dispatch_process ps a n (listen_event port protocol) = process_listen ps a n protocol
  dispatch_process ps a n (connect_event ip port protocol) = process_connect ps a n protocol
  dispatch_process ps a n (data_event key payload) = process_data_event a n key
  dispatch_process ps a n (close_event key) = close_key n key
  dispatch_process ps a n (clear_event group) = clear_group n group

  -- The events that the loop took from the queue, in their order.
  unfoldable pub dispatch_all :
      {D : Type 0} → Protocols → Net K → List (Answers × IoEvent D) → Result (Net K)
  unfolding dispatch_process
  dispatch_all ps n [] = ok n
  dispatch_all ps n ((a, event) ∷ events) =
      dispatch_process ps a n event >>= λ n'. dispatch_all ps n' events

  -- The timer of `onNewConnection`: the protocol's onTimer says whether the connection stays.
  unfoldable pub on_second : Net K → ℕ → Bool → Result (Net K)
  unfolding close_key
  on_second n p stays = if stays then ok n else close_key n (key_of n p)
