-- ===== src/Engine/IoEngine/Protocols.antt =====
-- engine/IOEngine.cpp: the table of the protocols. `key` is what the key pool of the submodule core
-- hands out, and `poll` what `pollOnePacket` of its queue does within the time: it runs the engine's
-- dispatcher on packets until one meets the condition.
use zlnet.Base.{
  ℕ, List, [], ◌∷◌, ◌++◌, Option, none, some, Bool, true, false, not, ◌==◌, if◌then◌else◌, Result,
  ok, fault, assertion, ◌>>=◌, ◌>>◌, require,
}
use zlnet.Base.Core.{Core, put}
use zlnet.Network.IoEvents.{
  IoEvent, listen_event, connect_event, close_event, ObjectType, wakeup, listener, connector,
  session,
}
use zlnet.Engine.Messages.{IoPacket}
use zlnet.Engine.IoEngine.{IoEngine, Object, Packet, notify, message, Leaves}

-- The condition of `confirmListen` and `confirmConnect`.
unfoldable pub is_notify_of : {M : Type 0} → ℕ → Packet M → Bool
is_notify_of p (notify type uid protocol from success) = protocol == p
is_notify_of p (message packet) = false

module _ {U M : Type 0} where
  -- `getProtocol`
  unfoldable pub get_protocol : IoEngine U M → ℕ → Option ℕ
  get_protocol e uid = e.protocols uid

  unfoldable pub change_object : IoEngine U M → ℕ → Object → IoEngine U M
  change_object e p o = record e { objects = put e.objects p o }

  -- `setAvailable`, `unsetAvailable`
  unfoldable pub set_available : IoEngine U M → ℕ → Bool → IoEngine U M
  unfolding change_object
  set_available e p b = change_object e p (record (e.objects p) { available = b })

  -- `pushEvent`
  unfoldable pub push_event : IoEngine U M → IoEvent (IoPacket M) → IoEngine U M
  push_event e event = record e { events = e.events ++ event ∷ [] }

  -- CNetwork::listen and CNetwork::connect.
  unfoldable pub network_listen : ℕ → IoEngine U M → ℕ → ℕ → Result (ℕ × IoEngine U M)
  unfolding change_object push_event
  network_listen key e port p =
      require ((e.objects p).key == 0)
      >> (if key == 0
          then ok (0, e)
          else ok (
            key,
            push_event (change_object e p (record (e.objects p) { key = key; kind = listener }))
                (listen_event port p),
          ))

  unfoldable pub network_connect : ℕ → IoEngine U M → List ℕ → ℕ → ℕ → Result (ℕ × IoEngine U M)
  unfolding change_object push_event
  network_connect key e ip port p =
      require ((e.objects p).key == 0)
      >> (if key == 0
          then ok (0, e)
          else ok (
            key,
            push_event (change_object e p (record (e.objects p) { key = key; kind = connector }))
                (connect_event ip port p),
          ))

  -- `_network->close`
  unfoldable pub network_close : IoEngine U M → ℕ → IoEngine U M
  unfolding push_event
  network_close e uid = push_event e (close_event uid)

module _ (core : Core) {U M : Type 0} where
  -- The end of `listen` and `connect`.
  unfoldable pub keep_protocol : IoEngine U M → ℕ → ℕ → ℕ × IoEngine U M
  unfolding change_object
  keep_protocol e uid p =
      let e1 = change_object e p (record (e.objects p) { has_queue = true }) in
      let (t, added) = core.insert e1.protocols uid p in
      let e2 = record e1 { protocols = t } in if added then (uid, e2) else (0, e2)

  unfoldable pub listen : ℕ → IoEngine U M → ℕ → ℕ → Result (ℕ × IoEngine U M)
  unfolding network_listen keep_protocol
  listen key e port p =
      if not ((e.objects p).key == 0)
      then ok (0, e)
      else network_listen key e port p >>= λ r.
          if r.0 == 0 then ok (0, r.1) else ok (keep_protocol r.1 r.0 p)

  unfoldable pub connect : ℕ → IoEngine U M → List ℕ → ℕ → ℕ → Result (ℕ × IoEngine U M)
  unfolding network_connect keep_protocol
  connect key e ip port p =
      if not ((e.objects p).key == 0)
      then ok (0, e)
      else network_connect key e ip port p >>= λ r.
          if r.0 == 0 then ok (0, r.1) else ok (keep_protocol r.1 r.0 p)

  -- `removeProtocol`
  unfoldable pub remove_protocol : IoEngine U M → ℕ → Bool × IoEngine U M
  remove_protocol e uid =
      let (t, removed) = core.remove e.protocols uid in (removed, record e { protocols = t })

  -- The end of `confirmListen` and `confirmConnect`: the protocol that did not become available goes.
  unfoldable pub confirmed : IoEngine U M → ℕ → ℕ → Bool × IoEngine U M
  unfolding remove_protocol network_close
  confirmed e uid p =
      if (e.objects p).available
      then (true, e)
      else (false, network_close (remove_protocol e uid).1 uid)

  module _ (poll : (Packet M → Bool) → IoEngine U M → Result (IoEngine U M)) where
    unfoldable pub confirm_listen : IoEngine U M → ℕ → Result (Bool × IoEngine U M)
    unfolding confirmed get_protocol is_notify_of
    confirm_listen e uid = elim (get_protocol e uid) [
      | none ↦ ok (false, e)
      | some p ↦
          if (e.objects p).available
          then ok (true, e)
          else poll (is_notify_of p) e >>= λ e'. ok (confirmed e' uid p)
    ]

    unfoldable pub confirm_connect : IoEngine U M → ℕ → Result (Bool × IoEngine U M)
    unfolding confirmed get_protocol is_notify_of
    confirm_connect e uid = elim (get_protocol e uid) [
      | none ↦ ok (false, e)
      | some p ↦
          if (e.objects p).available
          then ok (true, e)
          else poll (is_notify_of p) e >>= λ e'. ok (confirmed e' uid p)
    ]

  -- The switch of `close`.
  unfoldable pub leave_by_kind : Leaves U M → ObjectType → ℕ → IoEngine U M → Result (IoEngine U M)
  leave_by_kind leaves listener uid e = leaves.on_unlisten uid e
  leave_by_kind leaves session uid e = leaves.on_close uid e
  leave_by_kind leaves connector uid e = leaves.on_disconnect uid e
  leave_by_kind leaves wakeup uid e = fault assertion

  unfoldable pub close : Leaves U M → IoEngine U M → ℕ → Result (IoEngine U M)
  unfolding get_protocol network_close remove_protocol leave_by_kind
  close leaves e uid = elim (get_protocol e uid) [
    | none ↦ ok e
    | some p ↦
        if not (e.objects p).available
        then ok (remove_protocol (network_close e uid) uid).1
        else leave_by_kind leaves (e.objects p).kind uid (network_close e uid) >>= λ e'.
            ok (remove_protocol e' uid).1
  ]
