-- ===== src/Network/Connections.antt =====
-- network/IOObject.h, IOObjects.h and TCP_IOObjects.h: the objects of the network's thread, its state
-- as the handlers of TCP_Network.cpp see it, and the object table of network/Network.cpp.
use zlnet.Base.{
  ℕ, List, [], ◌∷◌, Option, none, some, Bool, true, false, not, ◌==◌, ◌||◌, if◌then◌else◌, Result,
  ok, fault, assertion, ◌>>◌, require,
}
use zlnet.Base.Core.{put, is_some}
use zlnet.Network.IoEvents.{ObjectType}
use zlnet.Network.RingBuffer.{Ring, clear}
use zlnet.Network.Poller.{IoObject}

-- EPROTOCOL
pub data ProtocolType : Type 0 where
  tcp udp kcp : ProtocolType

-- EConnectState
pub data ConnectState : Type 0 where
  disconnected connecting connected disconnecting : ConnectState

unfoldable pub same_state : ConnectState → ConnectState → Bool
same_state disconnected disconnected = true
same_state connecting connecting = true
same_state connected connected = true
same_state disconnecting disconnecting = true
same_state _ _ = false

-- A listener, a session or a connector. `group` and `protocol_group` are the groups of the object and of
-- its protocol, `protocol_type` is its protocol's; `established` says whether the callbacks are those of an open connection, and not
-- those of a connector that waits for its connection. `io` has the key, the socket and the events.
pub record Connection : Type 0 where
  pub io : IoObject
  pub kind : ObjectType
  pub group : ℕ
  pub protocol_group : ℕ
  pub protocol_type : ProtocolType
  pub has_endpoint : Bool
  pub state : ConnectState
  pub writing : Bool
  pub established : Bool
  pub input : Ring
  pub output : Ring

-- `enableSend`, `enableWrite`, `enableRead`
unfoldable pub enable_send : Connection → Bool
unfolding same_state
enable_send c = same_state c.state connected

unfoldable pub enable_write : Connection → Bool
unfolding same_state
enable_write c = same_state c.state connected || same_state c.state disconnecting

unfoldable pub enable_read : Connection → Bool
unfolding same_state
enable_read c = same_state c.state connected || same_state c.state disconnecting

-- `Connection::onRecycle`, as far as the buffers go.
unfoldable pub recycle : Connection → Connection
recycle c = record c { input = clear c.input; output = clear c.output }

-- What a protocol is told.
pub data Note : Type 0 where
  on_listen : (key : ℕ) (success : Bool) → Note
  on_unlisten : (key : ℕ) → Note
  on_accept : (key from : ℕ) → Note
  on_close : (key : ℕ) → Note
  on_connect : (key : ℕ) (success : Bool) → Note
  on_disconnect : (key : ℕ) → Note

-- The timers that the handlers start, on the object at a pointer.
pub data Timer : Type 0 where
  each_second : ℕ → Timer
  force_close : ℕ → Timer
  reconnect : ℕ → Timer

-- `table` holds the pointer in each slot, `objects` what it points at. `kernel` is what epoll watches;
-- `notes`, `wire` (the bytes given to each socket), `shutdowns` and `timers` are what was done, oldest
-- first.
pub record Net (K : Type 0) : Type 0 where
  pub kernel : K
  pub table : ℕ → Option ℕ
  pub objects : ℕ → Connection
  pub notes : List Note
  pub wire : List (ℕ × List ℕ)
  pub shutdowns : List ℕ
  pub timers : List Timer

abbrev pub key_of : {K : Type 0} → Net K → ℕ → ℕ
key_of n p = (n.objects p).io.key

-- `index` is ObjecKeyPool::index.
module _ (index : ℕ → ℕ) {K : Type 0} where
  unfoldable pub add_object : Net K → ℕ → Result (Net K)
  add_object n p = do
    let slot = index (key_of n p)
    require (not (is_some (n.table slot)))
    ok (record n { table = put n.table slot (some p) })

  unfoldable pub remove_object : Net K → ℕ → Result (Net K)
  remove_object n key =
      let slot = index key in
      elim (n.table slot) [
        | none ↦ fault assertion
        | some p ↦ require (key_of n p == key) >> ok (record n { table = put n.table slot none })
      ]

  unfoldable pub get_object : Net K → ℕ → Option ℕ
  get_object n key = elim (n.table (index key)) [
    | none ↦ none
    | some p ↦ if key_of n p == key then some p else none
  ]

unfoldable pub in_group : ℕ → Connection → Bool
in_group group c = group == 0 || c.group == group || c.protocol_group == group

module _ {K : Type 0} where
  -- `isEmpty`, over the first `size` slots.
  unfoldable pub is_empty : List ℕ → Net K → Bool
  is_empty [] n = true
  is_empty (slot ∷ slots) n = if is_some (n.table slot) then false else is_empty slots n

  -- `getGroupObject`
  unfoldable pub get_group_object : List ℕ → ℕ → Net K → List ℕ
  unfolding in_group
  get_group_object [] group n = []
  get_group_object (slot ∷ slots) group n =
      let rest = get_group_object slots group n in
      elim (n.table slot) [
        | none ↦ rest
        | some p ↦ if in_group group (n.objects p) then p ∷ rest else rest
      ]
