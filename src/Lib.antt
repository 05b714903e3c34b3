-- ===== src/Lib.antt =====
-- A model of the zlnet server library: byte buffers (network/), the wire form of values and packets
-- (engine/), and what is proved of them.
--
-- The program. A socket fills the input buffer of a connection, a CRingBuffer, through the regions of
-- getWriteableVec, and drains the output buffer through those of getReadableVec. A protocol cuts the
-- input into frames (InnerProtocol::onUnserialize), builds a packet of each and pushes it to the
-- engine's queue; a packet that leaves is written as one frame (InnerProtocol::onSerialize). The
-- values in a message are written and read by the overloads of Serialize, over a BufferWriter and a
-- BufferReader, which stand on any IBuffer: a Buffer or a StackBuffer.
--
-- The network's thread (CNetwork) keeps the objects in a table by their keys, runs the handlers of
-- TCP_Network.cpp on the events of the poller and carries out the events of its queue. The engine
-- (IOEngine) puts such events there, keeps the protocols and the callbacks that wait for an answer, and
-- takes the packets that the protocols push from its own queue.
--
-- The files.
--   Base: shared names, the Boolean tests, byte arrays as lists, `uint32` arithmetic, and Result: what
--   a call ends in, a value or a stop of the process (a failed assertion, a copy outside its array, a
--   null pointer that is used, an exception). `fuel` is the stop of a loop that the model cut off.
--   Base.Core: tables as functions, and what the submodule core does for the engine: intrusive lists
--   and the helpers of its maps.
--   Network.Growth: the doubling loop of the three `ensure` functions.
--   Network.RingBuffer: CRingBuffer of network/RingBuffer.h and RingBuffer.cpp; Valid has its
--   invariant and the byte sequence that it stands for, Resize, Write, Read and Vectors the laws of
--   its operations, Interface the ring as an IIoBuffer.
--   Network.IIoBuffer and Network.IBuffer: the interfaces of network/IIOBuffer.h and IBuffer.h, with
--   the laws that their clients use.
--   Network.Buffer and Network.StackBuffer: the two classes of network/Buffer.h.
--   Network.ByteOrder: network/Common.h and the Linux half of Common.cpp, over a Host, which says the
--   byte order and the size of an `unsigned long`.
--   Network.BufferWriter and Network.BufferReader: the classes of the same names.
--   Network.Poller: network/Poller.cpp, EPoller.cpp and what they use of network/IOObject.h; Laws has
--   the calls that change what the kernel watches, Lost the objects whose `epoll_ctl` failed, Rounds the
--   callbacks of a round. `epoll_ctl` is the parameter Epoll, which may fail at any call, and a round
--   gets the events that `epoll_wait` returned.
--   Network.Address: network/Address.h and Address.cpp without the text forms.
--   Network.IoEvents: network/IOEvents.h and the kinds of object of network/Configs.h.
--   Network.Connections: the objects of the network's thread (network/IOObject.h, IOObjects.h,
--   TCP_IOObjects.h) and the object table of network/Network.cpp.
--   Network.Tcp: what handleTcpConRead, handleTcpConWrite and tcpSend do with bytes; Closing the closes
--   of TCP_Network.cpp, Handlers its handlers, Events what network/Network.cpp does with the events of
--   its queue. Reads, Writes and Flush treat the bytes, Told, Sessions and Lives the life of a
--   session, and Calls any sequence of calls on one.
--   Engine.IoEngine: engine/IOEngine.cpp; Callbacks has the callback table and its timer, Protocols the
--   protocols and the requests to the network, Dispatch the packets of the queue, Runs the calls in any
--   order. Ids and NextId treat the callback ids, Waiting the invariant of the callbacks, Sends, Ticks
--   and Keeping the operations on it, Timer and Freed the timeouts, Answers a call and its answer.
--   Engine.NetEngine: engine/NetEngine.h and the message of a ping or a pong; Handlers has the handlers
--   and virtual functions of NetEngine.cpp, Hellos reads the message back, Handshake treats two engines,
--   Peers, Keeping and Runs the reports of one. Engine.IoEngine.User says which calls leave its fields alone.
--   Engine.Serializes: engine/Serializes.h and Serializes.cpp; a Codec pairs the two overloads for a
--   type with the wire form, and the codecs of containers are built from those of their elements.
--   Engine.Messages: IMessage, IOPacket and SerializeMessage.
--   Engine.InnerProtocol: engine/InnerProtocol.cpp and Headers.h. Frames and Receive describe the
--   frames by their bytes and treat one frame, Stream the loop, Send what is written, Delivery both
--   ends, Malformed the blocks that no sender writes.
--
-- Conventions. A number is a natural number, `uint32` arithmetic is modulo 2 ^ 32 (add32, sub32), a
-- signed integer, a float or a double is its bits. An array is the list of its bytes and a pointer
-- into it an offset, with `none` for nullptr. What `new char[n]` finds in memory is a function `junk`
-- that every theorem holds for. A map or a set is the list of its entries in the order of the keys.
--
-- Bounds. The doubling loop runs on 33 rounds: every round makes the capacity at least twice as large
-- until it holds the size or has wrapped around, and the wrap to 2 ^ 32 - 1 holds every size.
-- onUnserialize runs on the rounds that its caller gives; one more than there are frames are enough.
--
-- onTimerCallbackTimeout and the events of the queue run on rounds in the same way.
--
-- A `writev` with more buffers than IOV_MAX, here the 1024 of Linux, fails with EINVAL; what stands
-- behind the array of two buffers of handleTcpConWrite is an argument.
--
-- Parameters. The system calls are arguments: what they return. `epoll_ctl` is Network.Poller.Epoll. Of
-- the git submodule core, which the repository does not hold, the key pool, the map helpers, the
-- intrusive lists, the object pool and the polling of a queue are parameters; so are the virtual
-- functions of an engine, the handlers that it calls, and what a protocol does to its input buffer. A
-- time is a natural number, where the code has an int64.
--
-- Not modelled: threads, the start and the end of the network's loop, the error codes of
-- network/Endpoint.cpp, the loop of the engine and the application (engine/Engine.cpp,
-- PacketHandlers.cpp, app/), logging and the counters of _MONITOR, and the Windows halves of the files.
pub mod Base
pub mod Network
pub mod Engine
