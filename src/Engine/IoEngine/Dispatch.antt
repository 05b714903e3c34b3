-- ===== src/Engine/IoEngine/Dispatch.antt =====
-- engine/IOEngine.cpp: what the engine does with a packet of its queue, and its timer.
use zlnet.Base.{
  ℕ, Option, none, some, Bool, true, false, not, ◌==◌, if◌then◌else◌, Result, ok, fault, null,
  ◌>>=◌, deref,
}
use zlnet.Base.Core.{Core, put, is_some}
use zlnet.Engine.Messages.{IoPacket}
use zlnet.Engine.IoEngine.{
  IoEngine, Hooks, Leaves, Packet, notify, message, PacketType, packet_listen, packet_unlisten,
  packet_accept, packet_connect, packet_disconnect, packet_close, packet_msg,
}
use zlnet.Engine.IoEngine.Callbacks.{ready, dispatch_callback, on_timer_callback_timeout}
use zlnet.Engine.IoEngine.Protocols.{get_protocol, set_available, remove_protocol}

module _ {U M : Type 0} where
  -- `get_protocol` and a comparison of pointers.
  unfoldable pub is_protocol : IoEngine U M → ℕ → Option ℕ → Bool
  unfolding get_protocol
  is_protocol e uid q = elim (get_protocol e uid) [
    | none ↦ not (is_some q)
    | some p ↦ elim q [ none ↦ false | some p' ↦ p == p' ]
  ]

  -- `bindPacketHandler`: a command keeps the handler that it has.
  unfoldable pub bind_packet_handler : IoEngine U M → ℕ → ℕ → Bool × IoEngine U M
  bind_packet_handler e cmd handler =
      if is_some (e.packet_handlers cmd)
      then (false, e)
      else (true, record e { packet_handlers = put e.packet_handlers cmd (some handler) })

module _ (core : Core) {U M : Type 0} (hooks : Hooks U M) where
  -- `dispatchPacket`
  unfoldable pub dispatch_packet : IoEngine U M → IoPacket M → Result (IoEngine U M)
  dispatch_packet e packet = elim (e.packet_handlers packet.cmd) [
    | none ↦ ok e
    | some p ↦ hooks.on_packet p packet e
  ]

  unfoldable pub on_io_listen : IoEngine U M → ℕ → ℕ → Bool → Result (IoEngine U M)
  unfolding is_protocol set_available
  on_io_listen e uid p success =
      if not (is_protocol e uid (some p))
      then ok e
      else hooks.on_listen uid success (if success then set_available e p true else e)

  unfoldable pub on_io_unlisten : IoEngine U M → ℕ → Bool → Result (IoEngine U M)
  unfolding get_protocol set_available remove_protocol
  on_io_unlisten e uid success = elim (get_protocol e uid) [
    | none ↦ ok e
    | some p ↦
        if not (e.objects p).available
        then ok e
        else hooks.on_listen uid success (set_available e p false) >>= λ e'.
            ok (remove_protocol core e' uid).1
  ]

  -- `onIOAccept` with the listener's protocol at `q`.
  unfoldable pub accept_from : IoEngine U M → ℕ → ℕ → Result (IoEngine U M)
  unfolding is_protocol set_available
  accept_from e p q =
      let uid = (e.objects p).key in
      let from_uid = (e.objects q).key in
      let e1 = set_available e p true in
      let inserted = core.insert e1.protocols uid p in
      if not (is_protocol e from_uid (some q))
      then ok e
      else if not (e.objects q).available
      then ok e
      else if not inserted.1
      then ok (record e1 { protocols = inserted.0 })
      else hooks.on_accept uid from_uid (record e1 { protocols = inserted.0 })

  unfoldable pub on_io_accept : IoEngine U M → ℕ → Option ℕ → Result (IoEngine U M)
  unfolding accept_from
  on_io_accept e p from = deref from >>= λ q. accept_from e p q

  unfoldable pub on_io_close : IoEngine U M → ℕ → Result (IoEngine U M)
  unfolding set_available remove_protocol
  on_io_close e p =
      let uid = (e.objects p).key in
      if not (e.objects p).available
      then ok e
      else hooks.leaves.on_close uid (set_available e p false) >>= λ e'.
          ok (remove_protocol core e' uid).1

  unfoldable pub on_io_connect : IoEngine U M → ℕ → Bool → Result (IoEngine U M)
  unfolding set_available
  on_io_connect e p success =
      let uid = (e.objects p).key in
      if not (is_some (e.protocols uid))
      then ok e
      else hooks.on_connect uid success (if success then set_available e p true else e)

  unfoldable pub on_io_disconnect : IoEngine U M → ℕ → Result (IoEngine U M)
  unfolding set_available remove_protocol
  on_io_disconnect e p =
      let uid = (e.objects p).key in
      if not (is_some (e.protocols uid))
      then ok e
      else if not (e.objects p).available
      then ok e
      else hooks.leaves.on_disconnect uid (set_available e p false) >>= λ e'.
          ok (remove_protocol core e' uid).1

  unfoldable pub on_io_packet : IoEngine U M → IoPacket M → Result (IoEngine U M)
  unfolding ready dispatch_packet dispatch_callback
  on_io_packet e packet = elim (ready e packet.uid) [
    | none ↦ ok e
    | some _ ↦
        if not (packet.cmd == 0)
        then dispatch_packet e packet
        else if not (packet.callback_id == 0)
        then dispatch_callback core hooks e packet
        else ok e
  ]

  -- The switch of `dispatchIOPacket` on an IONotify; one of type PacketMsg is no IOPacket, and the
  -- pointer that the cast gives is used.
  unfoldable pub on_notify :
      PacketType → IoEngine U M → ℕ → ℕ → Option ℕ → Bool → Result (IoEngine U M)
  unfolding on_io_listen on_io_unlisten on_io_accept on_io_close on_io_connect on_io_disconnect
  on_notify packet_listen e uid p from success = on_io_listen e uid p success
  on_notify packet_unlisten e uid p from success = on_io_unlisten e uid success
  on_notify packet_accept e uid p from success = on_io_accept e p from
  on_notify packet_connect e uid p from success = on_io_connect e p success
  on_notify packet_close e uid p from success = on_io_close e p
  on_notify packet_disconnect e uid p from success = on_io_disconnect e p
  on_notify packet_msg e uid p from success = fault null

  unfoldable pub dispatch_io_packet : IoEngine U M → Packet M → Result (IoEngine U M)
  unfolding on_notify on_io_packet
  dispatch_io_packet e (notify type uid p from success) = on_notify type e uid p from success
  dispatch_io_packet e (message packet) = on_io_packet e packet

  -- `onTimer1000ms`; `onTimerProtocolHeart` changes nothing.
  unfoldable pub on_timer1000ms : ℕ → ℕ → IoEngine U M → Result (IoEngine U M)
  unfolding on_timer_callback_timeout
  on_timer1000ms rounds now e = on_timer_callback_timeout core hooks rounds now e

-- What an IOEngine that no class derives from does at these calls: nothing.
unfoldable pub base_leaves : {U M : Type 0} → Leaves U M
base_leaves = record {
  on_unlisten = λ uid e. ok e;
  on_close = λ uid e. ok e;
  on_disconnect = λ uid e. ok e;
}
