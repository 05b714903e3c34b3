-- ===== src/Network/IoEvents.antt =====
-- network/IOEvent.h and IOEvents.h: what the engine's thread asks of the network's thread. `D` is the
-- type of the data; a protocol is its pointer, a text the list of its bytes.
use zlnet.Base.{ℕ, List}

-- EIOOBJECT_TYPE of network/Configs.h
pub data ObjectType : Type 0 where
  wakeup listener connector session : ObjectType

pub data IoEvent (D : Type 0) : Type 0 where
  listen_event : (port protocol : ℕ) → IoEvent D
  connect_event : (ip : List ℕ) (port protocol : ℕ) → IoEvent D
  data_event : (key : ℕ) (payload : D) → IoEvent D
  close_event : (key : ℕ) → IoEvent D
  clear_event : (group : ℕ) → IoEvent D
