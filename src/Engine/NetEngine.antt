-- ===== src/Engine/NetEngine.antt =====
-- engine/NetEngine.h: the nodes that a NetEngine knows, and the message of a ping and of a pong, as
-- `pack` and `unpack` of engine/Serializes.h write and read it.
pub mod Handlers
pub mod Peers
pub mod Hellos
pub mod Handshake
pub mod Keeping
pub mod Runs
mod Tests
use zlnet.Base.{
  ℕ, List, [], ◌∷◌, Option, none, Result, ok, fault, assertion, bounds, null, dangling, thrown,
  fuel, ◌>>=◌,
}
use zlnet.Base.Core.{Table, no_entries}
use zlnet.Network.ByteOrder.{Host}
use zlnet.Network.IBuffer.{IBuffer}
use zlnet.Network.Buffer.{Buffer}
use zlnet.Network.Buffer
use zlnet.Network.Buffer.Laws.{buffer_IBuffer}
use zlnet.Network.BufferWriter.{BufferWriter, write_uint32}
use zlnet.Network.BufferWriter
use zlnet.Network.BufferReader.{BufferReader, read_uint32}
use zlnet.Network.BufferReader
use zlnet.Engine.Serializes.{put_string, get_string}
use zlnet.Engine.Messages.{SerializeMessage}

-- MsgCmd
abbrev pub ping : ℕ
ping = 2

abbrev pub pong : ℕ
pong = 3

-- A Node; `protocol` is its pointer, `none` for null.
pub record Node : Type 0 where
  pub uid : ℕ
  pub code : ℕ
  pub type : ℕ
  pub host : List ℕ
  pub port : ℕ
  pub protocol : Option ℕ
  pub info : List ℕ

-- What `onNodeConnect` and `onNodeDisConnect` are told.
pub data Report : Type 0 where
  joined : (uid code type : ℕ) → Report
  left : (uid : ℕ) → Report

-- The fields of NetEngine; the std::set is a table of its members. `nodes` is what the pointers of
-- nodes point at and `next_node` the pointer of the next new one; `reports` has the latest first.
pub record Nodes : Type 0 where
  pub node_uid : ℕ
  pub node_code : ℕ
  pub node_type : ℕ
  pub node_info : List ℕ
  pub connect_nodes : Table
  pub connecting_nodes : Table
  pub accepted_nodes : Table
  pub peers : Table
  pub nodes : ℕ → Node
  pub next_node : ℕ
  pub reports : List Report

-- `NetEngine::NetEngine`, over the memory for nodes.
unfoldable pub no_nodes : (ℕ → Node) → Nodes
no_nodes nodes = record {
  node_uid = 0;
  node_code = 0;
  node_type = 0;
  node_info = [];
  connect_nodes = no_entries;
  connecting_nodes = no_entries;
  accepted_nodes = no_entries;
  peers = no_entries;
  nodes = nodes;
  next_node = 0;
  reports = [];
}

-- An IMessage, as far as `dynamic_pointer_cast<SerializeMessage>` tells them apart.
pub data NodeMessage : Type 0 where
  serialized : SerializeMessage → NodeMessage
  other_message : NodeMessage

-- The five values of a ping or a pong.
pub record Hello : Type 0 where
  pub from_code : ℕ
  pub from_type : ℕ
  pub info : List ℕ
  pub to_code : ℕ
  pub to_type : ℕ

-- A `catch (std::exception&)` that goes on with what there was.
unfoldable pub caught {ℓ} : {A : Type ℓ} → A → Result A → Result A
caught before (ok a) = ok a
caught before (fault thrown) = ok before
caught before (fault assertion) = fault assertion
caught before (fault bounds) = fault bounds
caught before (fault null) = fault null
caught before (fault dangling) = fault dangling
caught before (fault fuel) = fault fuel

module _ (h : Host) where
  -- `pack`; nothing that it calls throws.
  unfoldable pub pack_hello : BufferWriter Buffer → Hello → Result (BufferWriter Buffer)
  pack_hello w x = do
    w1 ← write_uint32 buffer_IBuffer h w x.from_code
    w2 ← write_uint32 buffer_IBuffer h w1 x.from_type
    w3 ← put_string buffer_IBuffer h w2 x.info
    w4 ← write_uint32 buffer_IBuffer h w3 x.to_code
    write_uint32 buffer_IBuffer h w4 x.to_type

  -- `unpack`: where the string throws, it and what follows stay as they were.
  unfoldable pub unpack_hello : BufferReader Buffer → Result Hello
  unfolding caught
  unpack_hello r = do
    (from_code, r1) ← read_uint32 buffer_IBuffer h r
    (from_type, r2) ← read_uint32 buffer_IBuffer h r1
    let before : Hello = record {
      from_code = from_code;
      from_type = from_type;
      info = [];
      to_code = 0;
      to_type = 0;
    }
    caught before (do
      (info, r3) ← get_string buffer_IBuffer h r2
      (to_code, r4) ← read_uint32 buffer_IBuffer h r3
      (to_type, r5) ← read_uint32 buffer_IBuffer h r4
      ok (record before { info = info; to_code = to_code; to_type = to_type }))

  -- The message that a ping or a pong carries.
  unfoldable pub hello_message : (ℕ → ℕ) → Hello → Result SerializeMessage
  unfolding pack_hello
  hello_message junk x = do
    w ← pack_hello (BufferWriter.create (Buffer.create junk 128)) x
    ok (record { id = 0; buffer = w.buf })

  unfoldable pub read_hello : SerializeMessage → Result Hello
  unfolding unpack_hello
  read_hello m = unpack_hello (BufferReader.create m.buffer)
