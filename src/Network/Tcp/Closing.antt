-- ===== src/Network/Tcp/Closing.antt =====
-- network/TCP_Network.cpp: how objects are closed and removed. `p` is the pointer of an object.
use zlnet.Base.{
  ℕ, [], ◌∷◌, ◌++◌, none, some, Bool, false, not, ◌||◌, if◌then◌else◌, Result, ok, fault, assertion,
  null, ◌>>=◌, ◌>>◌, require,
}
use zlnet.Base.Core.{put}
use zlnet.Network.IoEvents.{ObjectType, wakeup, listener, connector, session}
use zlnet.Network.Poller.{Epoll, IoObject, deregister_object}
use zlnet.Network.Connections.{
  Connection, ConnectState, disconnected, connecting, connected, disconnecting, same_state, Note,
  on_unlisten, on_close, on_connect, on_disconnect, Timer, force_close, Net, key_of, remove_object,
  get_object,
}

module _ {K : Type 0} where
  unfoldable pub note : Net K → Note → Net K
  note n x = record n { notes = n.notes ++ x ∷ [] }

  unfoldable pub change : Net K → ℕ → Connection → Net K
  change n p c = record n { objects = put n.objects p c }

  unfoldable pub set_state : Net K → ℕ → ConnectState → Net K
  unfolding change
  set_state n p s = change n p (record (n.objects p) { state = s })

  unfoldable pub set_writing : Net K → ℕ → Bool → Net K
  unfolding change
  set_writing n p b = change n p (record (n.objects p) { writing = b })

  unfoldable pub start_timer : Net K → Timer → Net K
  start_timer n t = record n { timers = n.timers ++ t ∷ [] }

  -- `getEndPoint()->shutdownWrite()`
  unfoldable pub shutdown_write : Net K → ℕ → Result (Net K)
  shutdown_write n p =
      if (n.objects p).has_endpoint
      then ok (record n { shutdowns = n.shutdowns ++ (n.objects p).io.socket ∷ [] })
      else fault null

  -- A call of the poller on the object.
  unfoldable pub polled : Net K → ℕ → (K → IoObject → K × IoObject) → Net K
  unfolding change
  polled n p call =
      let (k, o) = call n.kernel (n.objects p).io in
      record (change n p (record (n.objects p) { io = o })) { kernel = k }

module _ {K : Type 0} (epoll : Epoll K) (index : ℕ → ℕ) where
  -- `removeTcpCon`
  unfoldable pub remove_con : Net K → ℕ → Result (Net K)
  unfolding set_state polled
  remove_con n p =
      let n1 = set_state n p disconnected in
      let n2 = polled n1 p (deregister_object epoll) in remove_object index n2 (key_of n2 p)

  -- `removeTcpListen`
  unfoldable pub remove_listen : Net K → ℕ → Result (Net K)
  unfolding polled
  remove_listen n p =
      let n1 = polled n p (deregister_object epoll) in remove_object index n1 (key_of n1 p)

  -- `tcpCloseListen`
  unfoldable pub close_listen : Net K → ℕ → Result (Net K)
  unfolding note remove_listen
  close_listen n p = remove_listen (note n (on_unlisten (key_of n p))) p

  -- The end of tcpCloseConnection and tcpCloseConnector without `force`.
  unfoldable pub close_slowly : Net K → ℕ → Result (Net K)
  unfolding set_state shutdown_write start_timer
  close_slowly n p = if same_state (n.objects p).state disconnecting then ok n else do
    let n1 = set_state n p disconnecting
    n2 ← (if (n.objects p).writing then ok n1 else shutdown_write n1 p)
    ok (start_timer n2 (force_close p))

  -- `tcpCloseConnection`
  unfoldable pub close_connection : Net K → ℕ → Bool → Result (Net K)
  unfolding note remove_con close_slowly
  close_connection n p force = do
    require (not (same_state (n.objects p).state disconnected))
    let was_open = same_state (n.objects p).state connected
    let n1 = if was_open then note n (on_close (key_of n p)) else n
    if force then remove_con n1 p else close_slowly n1 p

  -- `tcpCloseConnector`
  unfoldable pub close_connector : Net K → ℕ → Bool → Result (Net K)
  unfolding note remove_con close_slowly
  close_connector n p force =
      let state = (n.objects p).state in
      let n1 = if same_state state connected then note n (on_disconnect (key_of n p)) else n in
      if same_state state disconnected || same_state state connecting
      then remove_con (note n (on_connect (key_of n p) false)) p
      else if force
      then remove_con n1 p
      else close_slowly n1 p

  -- `tcpCloseCon`
  unfoldable pub close_con : Net K → ℕ → Bool → Result (Net K)
  unfolding close_connection close_connector
  close_con n p force = elim (n.objects p).kind [
    | session ↦ close_connection n p force
    | other ↦ close_connector n p force
  ]

  -- The switch of `tcpClose`.
  unfoldable pub close_kind : ObjectType → Net K → ℕ → Bool → Result (Net K)
  unfolding close_listen close_connection close_connector
  close_kind listener n p force = close_listen n p
  close_kind session n p force = close_connection n p force
  close_kind connector n p force = close_connector n p force
  close_kind wakeup n p force = fault assertion

  -- `tcpClose`, which uses what `getObject` returns.
  unfoldable pub tcp_close : Net K → ℕ → Bool → Result (Net K)
  unfolding close_kind
  tcp_close n key force = elim (get_object index n key) [
    | none ↦ fault null
    | some p ↦ close_kind (n.objects p).kind n p force
  ]

  -- The timer that close_slowly started.
  unfoldable pub on_force_close : Net K → ℕ → Result (Net K)
  unfolding remove_con
  on_force_close n p = elim (get_object index n (key_of n p)) [
    | none ↦ ok n
    | some q ↦ require (same_state (n.objects p).state disconnecting) >> remove_con n p
  ]
