-- ===== src/Network.antt =====
-- The files of network/.
pub mod Growth
pub mod RingBuffer
pub mod IBuffer
pub mod Buffer
pub mod StackBuffer
pub mod ByteOrder
pub mod BufferWriter
pub mod BufferReader
pub mod IIoBuffer
pub mod Poller
pub mod Address
pub mod IoEvents
pub mod Connections
pub mod Tcp
mod Tests
