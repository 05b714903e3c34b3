-- ===== src/Engine/IoEngine/Keeping.antt =====
-- The invariant of the waiting callbacks across what the engine does with its protocols and packets.
use zlnet.Base.{
  ℕ, ◌≡◌, refl, Option, none, some, Bool, true, false, not, ◌==◌, if◌then◌else◌, ok, Ensures,
  returns, stops, assertion, null, if-Ensures, >>=-Ensures, ◌>>=◌, ◌>>◌, require,
}
use zlnet.Base.Core.{Core, is_some}
use zlnet.Engine.Messages.{IoPacket}
use zlnet.Network.IoEvents.{ObjectType, wakeup, listener, connector, session}
use zlnet.Engine.IoEngine.{
  Hooks, Leaves, Packet, notify, message, PacketType, packet_listen, packet_unlisten, packet_accept,
  packet_connect, packet_disconnect, packet_close, packet_msg,
}
use zlnet.Engine.IoEngine.Callbacks.{ready, forget, dispatch_callback}
use zlnet.Engine.IoEngine.Protocols.{
  set_available, remove_protocol, network_close, close, leave_by_kind,
}
use zlnet.Engine.IoEngine.Dispatch.{
  is_protocol, dispatch_packet, on_io_listen, on_io_unlisten, accept_from, on_io_accept,
  on_io_close, on_io_connect, on_io_disconnect, on_io_packet, on_notify, dispatch_io_packet,
}
use zlnet.Engine.IoEngine.Waiting.{Inv, Keeps}
use zlnet.Engine.IoEngine.Timer.{forget-Inv}

-- Every function that a derived class or a user supplies keeps the invariant.
pub record LeavesKeep {U M : Type 0} (leaves : Leaves U M) : Type 0 where
  pub unlisten_keeps : (uid : ℕ) → Keeps (leaves.on_unlisten uid)
  pub close_keeps : (uid : ℕ) → Keeps (leaves.on_close uid)
  pub disconnect_keeps : (uid : ℕ) → Keeps (leaves.on_disconnect uid)

pub record HooksKeep {U M : Type 0} (hooks : Hooks U M) : Type 0 where
  pub leaves_keep : LeavesKeep hooks.leaves
  pub listen_keeps : (uid : ℕ) (success : Bool) → Keeps (hooks.on_listen uid success)
  pub accept_keeps : (uid from : ℕ) → Keeps (hooks.on_accept uid from)
  pub connect_keeps : (uid : ℕ) (success : Bool) → Keeps (hooks.on_connect uid success)
  pub packet_keeps : (p : ℕ) (packet : IoPacket M) → Keeps (hooks.on_packet p packet)
  pub callback_keeps : (p : ℕ) (packet : IoPacket M) → Keeps (hooks.on_callback p packet)

module _ (core : Core) {U M : Type 0} where
  leave_by_kind-Keeps :
      {leaves : Leaves U M}
      → LeavesKeep leaves
      → (kind : ObjectType) (uid : ℕ) → Keeps (leave_by_kind core leaves kind uid)
  unfolding leave_by_kind
  leave_by_kind-Keeps k listener uid = k.unlisten_keeps uid
  leave_by_kind-Keeps k session uid = k.close_keeps uid
  leave_by_kind-Keeps k connector uid = k.disconnect_keeps uid
  leave_by_kind-Keeps k wakeup uid = λ now e i. stops assertion

  remove_protocol-Keeps : (uid : ℕ) → Keeps {U = U} {M = M} (λ e. ok (remove_protocol core e uid).1)
  unfolding remove_protocol
  remove_protocol-Keeps uid now e i = returns i

  pub close-Keeps :
      {leaves : Leaves U M} → LeavesKeep leaves → (uid : ℕ) → Keeps (λ e. close core leaves e uid)
  unfolding close
  close-Keeps {leaves} k uid now e i =
      elim (e.protocols uid)
        as (λ o. Ensures (Inv now) (elim o [
          | none ↦ ok e
          | some p ↦
              if not (e.objects p).available
              then ok (remove_protocol core (network_close e uid) uid).1
              else leave_by_kind core leaves (e.objects p).kind uid (network_close e uid) >>= λ e'.
                  ok (remove_protocol core e' uid).1
        ])) [
          | none ↦ returns i
          | some p ↦ if-Ensures _ _ _ (returns i) (
              >>=-Ensures _ (leave_by_kind-Keeps k (e.objects p).kind uid now _ i)
                (λ e' i'. remove_protocol-Keeps uid now e' i'))
        ]

  module _ (hooks : Hooks U M) (k : HooksKeep hooks) where
    on_io_listen-Keeps :
        (uid p : ℕ) (success : Bool) → Keeps (λ e. on_io_listen core hooks e uid p success)
    unfolding on_io_listen
    on_io_listen-Keeps uid p true now e i =
        if-Ensures _ _ _ (returns i) (k.listen_keeps uid true now _ i)
    on_io_listen-Keeps uid p false now e i =
        if-Ensures _ _ _ (returns i) (k.listen_keeps uid false now _ i)

    on_io_unlisten-Keeps :
        (uid : ℕ) (success : Bool) → Keeps (λ e. on_io_unlisten core hooks e uid success)
    unfolding on_io_unlisten
    on_io_unlisten-Keeps uid success now e i = go (e.protocols uid)
      where
        go :
            (o : Option ℕ)
            → Ensures (Inv now) (elim o [
              | none ↦ ok e
              | some p ↦
                  if not (e.objects p).available
                  then ok e
                  else hooks.on_listen uid success (set_available e p false) >>= λ e'.
                      ok (remove_protocol core e' uid).1
            ])
        go none = returns i
        go (some p) = if-Ensures _ _ _ (returns i) (
            >>=-Ensures _ (k.listen_keeps uid success now _ i)
              (λ e' i'. remove_protocol-Keeps uid now e' i'))

    accept_from-Keeps : (p q : ℕ) → Keeps (λ e. accept_from core hooks e p q)
    unfolding accept_from
    accept_from-Keeps p q now e i =
        let inserted = core.insert e.protocols (e.objects p).key p in
        let e2 = record (set_available e p true) { protocols = inserted.0 } in
        if-Ensures (not (is_protocol e (e.objects q).key (some q))) _ _ (returns i) (
          if-Ensures (not (e.objects q).available) _ _ (returns i) (
            if-Ensures (not inserted.1) (ok e2) _ (returns i)
              (k.accept_keeps (e.objects p).key (e.objects q).key now e2 i)))

    on_io_accept-Keeps : (p : ℕ) (from : Option ℕ) → Keeps (λ e. on_io_accept core hooks e p from)
    unfolding on_io_accept
    on_io_accept-Keeps p none now e i = stops null
    on_io_accept-Keeps p (some q) now e i = accept_from-Keeps p q now e i

    on_io_close-Keeps : (p : ℕ) → Keeps (λ e. on_io_close core hooks e p)
    unfolding on_io_close
    on_io_close-Keeps p now e i = if-Ensures _ _ _ (returns i) (
        >>=-Ensures _ (k.leaves_keep.close_keeps _ now _ i)
          (λ e' i'. remove_protocol-Keeps _ now e' i'))

    on_io_connect-Keeps :
        (p : ℕ) (success : Bool) → Keeps (λ e. on_io_connect core hooks e p success)
    unfolding on_io_connect
    on_io_connect-Keeps p true now e i =
        if-Ensures _ _ _ (returns i) (k.connect_keeps _ true now _ i)
    on_io_connect-Keeps p false now e i =
        if-Ensures _ _ _ (returns i) (k.connect_keeps _ false now _ i)

    on_io_disconnect-Keeps : (p : ℕ) → Keeps (λ e. on_io_disconnect core hooks e p)
    unfolding on_io_disconnect
    on_io_disconnect-Keeps p now e i =
        if-Ensures (not (is_some (e.protocols (e.objects p).key))) _ _ (returns i) (
          if-Ensures (not (e.objects p).available) _ _ (returns i) (
            >>=-Ensures _
              (k.leaves_keep.disconnect_keeps (e.objects p).key now (set_available e p false) i)
              (λ e' i'. remove_protocol-Keeps _ now e' i')))

    dispatch_callback-Keeps :
        (packet : IoPacket M) → Keeps (λ e. dispatch_callback core hooks e packet)
    unfolding dispatch_callback
    dispatch_callback-Keeps packet now e i = go (e.callback_handlers packet.callback_id) refl
      where
        go :
            (o : Option ℕ)
            → e.callback_handlers packet.callback_id ≡ o
            → Ensures (Inv now) (elim o [
              | none ↦ ok e
              | some p ↦
                  require ((e.handlers p).uid == packet.uid)
                  >> hooks.on_callback p packet (forget core e packet.callback_id p)
            ])
        go none f = returns i
        go (some p) f = own ((e.handlers p).uid == packet.uid)
          where
            own :
                (b : Bool)
                → Ensures
                    (Inv now)
                    (require b >> hooks.on_callback p packet (forget core e packet.callback_id p))
            own true =
                k.callback_keeps p packet now _ (forget-Inv core now packet.callback_id e p f i)
            own false = stops assertion

    dispatch_packet-Keeps : (packet : IoPacket M) → Keeps (λ e. dispatch_packet core hooks e packet)
    unfolding dispatch_packet
    dispatch_packet-Keeps packet now e i = go (e.packet_handlers packet.cmd)
      where
        go :
            (o : Option ℕ)
            → Ensures (Inv now) (elim o [ none ↦ ok e | some p ↦ hooks.on_packet p packet e ])
        go none = returns i
        go (some p) = k.packet_keeps p packet now e i

    on_io_packet-Keeps : (packet : IoPacket M) → Keeps (λ e. on_io_packet core hooks e packet)
    unfolding on_io_packet
    on_io_packet-Keeps packet now e i = go (ready e packet.uid)
      where
        go :
            (o : Option ℕ)
            → Ensures (Inv now) (elim o [
              | none ↦ ok e
              | some _ ↦
                  if not (packet.cmd == 0)
                  then dispatch_packet core hooks e packet
                  else if not (packet.callback_id == 0)
                  then dispatch_callback core hooks e packet
                  else ok e
            ])
        go none = returns i
        go (some _) =
            if-Ensures (not (packet.cmd == 0)) _ _ (dispatch_packet-Keeps packet now e i) (
              if-Ensures (not (packet.callback_id == 0)) _ _
                (dispatch_callback-Keeps packet now e i) (returns i))

    on_notify-Keeps :
        (type : PacketType) (uid p : ℕ) (from : Option ℕ) (success : Bool)
        → Keeps (λ e. on_notify core hooks type e uid p from success)
    unfolding on_notify
    on_notify-Keeps packet_listen uid p from success = on_io_listen-Keeps uid p success
    on_notify-Keeps packet_unlisten uid p from success = on_io_unlisten-Keeps uid success
    on_notify-Keeps packet_accept uid p from success = on_io_accept-Keeps p from
    on_notify-Keeps packet_connect uid p from success = on_io_connect-Keeps p success
    on_notify-Keeps packet_close uid p from success = on_io_close-Keeps p
    on_notify-Keeps packet_disconnect uid p from success = on_io_disconnect-Keeps p
    on_notify-Keeps packet_msg uid p from success = λ now e i. stops null

    pub dispatch_io_packet-Keeps :
        (packet : Packet M) → Keeps (λ e. dispatch_io_packet core hooks e packet)
    unfolding dispatch_io_packet
    dispatch_io_packet-Keeps (notify type uid p from success) =
        on_notify-Keeps type uid p from success
    dispatch_io_packet-Keeps (message packet) = on_io_packet-Keeps packet
