-- ===== src/Network/Tcp/Handlers.antt =====
-- network/TCP_Network.cpp: the handlers of the poller's events, and what the events of the queue do. A
-- new object is one of the object pool of the submodule core, at the pointer that it hands out, where
-- the type and the group of its protocol already stand; the results of the system calls are arguments.
-- A socket is its 32 bits, and the time that a timer waits is left out.
use zlnet.Base.{
  ℕ, List, [], ◌∷◌, ◌++◌, take, Option, none, some, Bool, true, false, not, leb, ◌==◌, ◌&&◌,
  if◌then◌else◌, Result, ok, ◌>>=◌, ◌>>◌, require,
}
use zlnet.Network.IoEvents.{ObjectType, listener, connector, session}
use zlnet.Network.RingBuffer.{Ring, get_writeable_vec}
use zlnet.Network.Poller.{
  Epoll, register_read_handler, register_write_handler, deregister_write_handler, deregister_object,
}
use zlnet.Network.Connections.{
  Connection, disconnected, connecting, connected, disconnecting, same_state, enable_send,
  enable_write, enable_read, on_listen, on_accept, on_connect, each_second, reconnect, Net, key_of,
  add_object, get_object,
}
use zlnet.Network.Tcp.{
  Taken, took, failed, read_in, gathered, given_bytes, returned, write_out, send_out,
}
use zlnet.Network.Tcp.Closing.{
  note, change, set_state, set_writing, start_timer, shutdown_write, polled, close_con,
}

-- INVALID_SOCKET
abbrev pub invalid_socket : ℕ
invalid_socket = 0xffffffff

-- `IOObject::onAwake` and `Connection::onAwake`.
unfoldable pub awake : Connection → ObjectType → ℕ → ℕ → Connection
awake c kind key socket = record c {
  io = record { key = key; socket = socket; events = 0 };
  kind = kind;
  group = 0;
  has_endpoint = true;
  state = disconnected;
  writing = false;
}

-- Whether an `int32` is below 0.
abbrev negative : ℕ → Bool
negative n = leb 0x80000000 n

taken_bytes : List ℕ → Taken → List ℕ
taken_bytes bs failed = []
taken_bytes bs (took count) = take count bs

module _ {K : Type 0} where
  -- The socket took these bytes.
  unfoldable pub sent : Net K → ℕ → List ℕ → Taken → Net K
  unfolding taken_bytes
  sent n p bs taken = record n {
    wire = n.wire ++ ((n.objects p).io.socket, taken_bytes bs taken) ∷ [];
  }

  -- `setEndPoint`, with no endpoint or with one on a new socket.
  unfoldable pub set_endpoint : Net K → ℕ → Option ℕ → Net K
  unfolding change
  set_endpoint n p none = change n p (record (n.objects p) {
    has_endpoint = false;
    io = record (n.objects p).io { socket = invalid_socket };
  })
  set_endpoint n p (some socket) = change n p (record (n.objects p) {
    has_endpoint = true;
    io = record (n.objects p).io { socket = socket };
  })

module _ (junk : ℕ → ℕ) {K : Type 0} (epoll : Epoll K) (index : ℕ → ℕ) where
  -- `handleTcpAccept`: the socket that `accept` gave, the popped key, whether the protocol made
  -- another, and the pointer of the new session.
  unfoldable pub handle_accept : Net K → ℕ → Option ℕ → ℕ → Bool → ℕ → Result (Net K)
  unfolding note change start_timer polled awake
  handle_accept n p none key created q = ok n
  handle_accept n p (some socket) key created q =
      if key == 0 then ok n else if not created then ok n else do
        let c = record (awake (n.objects q) session key socket) {
          established = true;
          state = connected;
        }
        n1 ← add_object index (change n q c) q
        let n2 = polled n1 q (register_read_handler epoll)
        ok (start_timer (note n2 (on_accept key (key_of n p))) (each_second q))

  -- `handleTcpConError`
  unfoldable pub handle_con_error : Net K → ℕ → Result (Net K)
  handle_con_error n p = close_con epoll index n p true

  -- `handleTcpConRead`: the bytes that `readv` delivered, `none` for -1, and what the protocol's
  -- onUnserialize does to the input buffer.
  unfoldable pub handle_con_read :
      (Ring → Result (Bool × Ring)) → Net K → ℕ → Option (List ℕ) → Result (Net K)
  unfolding change
  handle_con_read unserialize n p none = do
    require (enable_read (n.objects p))
    ok (change n p (record (n.objects p) { input = get_writeable_vec (n.objects p).input }))
  handle_con_read unserialize n p (some []) = do
    require (enable_read (n.objects p))
    close_con epoll index
        (change n p (record (n.objects p) { input = get_writeable_vec (n.objects p).input })) p true
  handle_con_read unserialize n p (some (b ∷ bs)) = do
    require (enable_read (n.objects p))
    r ← read_in junk (n.objects p).input (b ∷ bs)
    (good, r') ← unserialize r
    let n1 = change n p (record (n.objects p) { input = r' })
    if good then ok n1 else close_con epoll index n1 p true

  -- The end of handleTcpConWrite, where all was taken.
  unfoldable pub written_all : Net K → ℕ → Result (Net K)
  unfolding set_writing polled shutdown_write
  written_all n p =
      let n1 = polled (set_writing n p false) p (deregister_write_handler epoll) in
      if same_state (n.objects p).state disconnecting then shutdown_write n1 p else ok n1

  -- `handleTcpConWrite`: what stands behind its array of regions, and what `writev` returns.
  unfoldable pub handle_con_write : Net K → ℕ → List ℕ → Taken → Result (Net K)
  unfolding change sent written_all
  handle_con_write n p behind taken = do
    require (enable_write (n.objects p))
    require (n.objects p).writing
    given ← gathered behind (n.objects p).output
    (all, r) ← write_out (n.objects p).output (returned given taken)
    let n1 =
        sent (change n p (record (n.objects p) { output = r })) p (given_bytes given)
          (returned given taken)
    if all then written_all n1 p else ok n1

  -- `tcpSend`: what the protocol's onSerialize left in the buffer, `none` where it failed.
  unfoldable pub tcp_send : Net K → ℕ → Option (List ℕ) → Taken → Result (Net K)
  unfolding change sent set_writing polled
  tcp_send n p none taken =
      if not (enable_send (n.objects p)) then ok n else close_con epoll index n p true
  tcp_send n p (some []) taken = ok n
  tcp_send n p (some (b ∷ bs)) taken = if not (enable_send (n.objects p)) then ok n else do
    (waits, r) ← send_out junk (n.objects p).output (b ∷ bs) taken
    let n1 = sent (change n p (record (n.objects p) { output = r })) p (b ∷ bs) taken
    if waits && not (n.objects p).writing
        then ok (polled (set_writing n1 p true) p (deregister_write_handler epoll))
        else ok n1

  -- `onTcpConnectError`
  unfoldable pub on_connect_error : Net K → ℕ → Net K
  unfolding note set_state set_endpoint start_timer polled
  on_connect_error n p =
      let n1 = set_state (polled n p (deregister_object epoll)) p disconnected in
      let n2 = set_endpoint n1 p none in
      start_timer (note n2 (on_connect (key_of n p) false)) (reconnect p)

  -- The timer of `onTcpConnectError`, with the socket that it makes.
  unfoldable pub on_reconnect : Net K → ℕ → ℕ → Result (Net K)
  unfolding set_state set_endpoint polled
  on_reconnect n p socket = elim (get_object index n (key_of n p)) [
    | none ↦ ok n
    | some q ↦
        require (same_state (n.objects p).state disconnected)
        >> ok (
            polled (set_state (set_endpoint n p (some socket)) p connecting) p
              (register_write_handler epoll))
  ]

  -- `handleTcpConnectError`
  unfoldable pub handle_connect_error : Net K → ℕ → Result (Net K)
  handle_connect_error n p = ok (on_connect_error n p)

  -- `handleTcpConnectWrite`: whether `getRemoteName` succeeds, whether it and `getLocalName` do in
  -- `isSelfConnect`, and whether both ends are one.
  unfoldable pub handle_connect_write : Net K → ℕ → (remote named self : Bool) → Result (Net K)
  unfolding note change start_timer polled on_connect_error
  handle_connect_write n p remote named self = do
    require (same_state (n.objects p).state connecting)
    let n1 = polled n p (deregister_object epoll)
    let c = record (n1.objects p) { state = connected; established = true }
    let n2 = polled (change n1 p c) p (register_read_handler epoll)
    let opened = ok (start_timer (note n2 (on_connect (key_of n p) true)) (each_second p))
    if not remote
        then ok (on_connect_error n p)
        else require named >> (if self then ok (on_connect_error n p) else opened)

  -- `tcpListen`: the socket, `none` for INVALID_SOCKET, what `bind` and `listen` of the endpoint
  -- return, and the pointer of the new listener for the protocol's key.
  unfoldable pub tcp_listen : Net K → ℕ → Option ℕ → ℕ → ℕ → ℕ → Result (Net K)
  unfolding note change polled awake
  tcp_listen n key none bound listening q = ok (note n (on_listen key false))
  tcp_listen n key (some socket) bound listening q =
      let n1 =
        change n q (record (awake (n.objects q) listener key socket) { established = false }) in
      let refused = ok (note n1 (on_listen key false)) in
      if negative bound then refused else if negative listening then refused else do
        n2 ← add_object index (polled n1 q (register_read_handler epoll)) q
        ok (note n2 (on_listen key true))

  -- `tcpConnect`
  unfoldable pub tcp_connect : Net K → ℕ → ℕ → ℕ → Result (Net K)
  unfolding change set_state polled awake
  tcp_connect n key socket q = do
    let c = record (awake (n.objects q) connector key socket) { established = false }
    n1 ← add_object index (change n q c) q
    ok (polled (set_state n1 q connecting) q (register_write_handler epoll))
