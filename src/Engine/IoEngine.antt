-- ===== src/Engine/IoEngine.antt =====
-- engine/IOEngine.h, and what it uses of Protocol.h, PacketHandlers.h, IONotify.h and Packet.h: the
-- engine's state, the packets of its queue, and the functions that a derived class or a user supplies.
pub mod Callbacks
pub mod Protocols
pub mod Dispatch
pub mod Ids
pub mod NextId
pub mod Waiting
pub mod Sends
pub mod Timer
pub mod Freed
pub mod Answers
pub mod Keeping
pub mod Ticks
pub mod Runs
pub mod User
mod Tests
use zlnet.Base.{ℕ, List, Option, Bool, Result}
use zlnet.Base.Core.{Table}
use zlnet.Network.IoEvents.{IoEvent, ObjectType}
use zlnet.Engine.Messages.{IoPacket}

-- EPacketType
pub data PacketType : Type 0 where
  packet_listen packet_unlisten packet_accept packet_connect packet_disconnect packet_close
        packet_msg :
      PacketType

-- A Packet is an IONotify or an IOPacket; the type of an IOPacket is always PacketMsg.
pub data Packet (M : Type 0) : Type 0 where
  notify : (type : PacketType) (uid protocol : ℕ) (from : Option ℕ) (success : Bool) → Packet M
  message : IoPacket M → Packet M

-- ErrCode
abbrev pub error_timeout : ℕ
error_timeout = 2

abbrev pub error_callback_by_send : ℕ
error_callback_by_send = 6

-- A Protocol as the engine sees it: `_key`, `_type`, `_available`, whether `_msgqueue` is the
-- engine's, and `_callbacklist`.
pub record Object : Type 0 where
  pub key : ℕ
  pub kind : ObjectType
  pub available : Bool
  pub has_queue : Bool
  pub callbacks : List ℕ

-- A CallbackHandler. `shared` says whether a `shared_ptr` other than that of the engine's table holds it.
pub record CallbackHandler : Type 0 where
  pub uid : ℕ
  pub cb_id : ℕ
  pub to_ms : ℕ
  pub cmd : ℕ
  pub shared : Bool

-- The tables and lists hold pointers, `objects` and `handlers` what they point at. `queue` is what was
-- posted to the engine's own queue and `events` what the network was asked, both oldest first; `user`
-- is the state of the derived class and of the user's code.
pub record IoEngine (U M : Type 0) : Type 0 where
  pub protocols : Table
  pub packet_handlers : Table
  pub callback_handlers : Table
  pub timeouts : List ℕ
  pub next_callback_id : ℕ
  pub callback_timeout_ms : ℕ
  pub objects : ℕ → Object
  pub handlers : ℕ → CallbackHandler
  pub queue : List (Packet M)
  pub events : List (IoEvent (IoPacket M))
  pub user : U

abbrev pub Handler : Type 0 → Type 0 → Type 0
Handler U M = IoEngine U M → Result (IoEngine U M)

-- The virtual functions that `close` calls, and the others, with `onPacket` of the handlers at a pointer.
pub record Leaves (U M : Type 0) : Type 0 where
  pub on_unlisten : ℕ → Handler U M
  pub on_close : ℕ → Handler U M
  pub on_disconnect : ℕ → Handler U M

pub record Hooks (U M : Type 0) : Type 0 where
  pub leaves : Leaves U M
  pub on_listen : ℕ → Bool → Handler U M
  pub on_accept : ℕ → ℕ → Handler U M
  pub on_connect : ℕ → Bool → Handler U M
  pub on_packet : ℕ → IoPacket M → Handler U M
  pub on_callback : ℕ → IoPacket M → Handler U M
