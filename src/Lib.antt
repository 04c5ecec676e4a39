-- ===== src/Lib.antt =====
-- The threader library (Qt, C++): threads that talk to peers over byte streams. Bytes that a device
-- delivers are collected by ThreadHandler, a packet factory cuts them into packets, and
-- ThreadDataFrames acknowledges packets, hands their frames on and sends its own packets one at a
-- time, each until its ticket comes. Frames wait for a ticket in a QueueDataFrames, travel as
-- DataFrameRawData, and everything that is written or read goes through DataStream, with the sums of
-- CrcUtils on packets. Messages between threads go through QueueMessages.
--
-- Which file models which part:
--   Utils/Stream      Utils/DataStream.h, Utils/DataStream.cpp: the array is part of the stream's
--                     state; read, write, setPosition and the specialisations of read and write
--                     have their names, the result stands beside the new stream.
--   Utils/IpMask      Utils/IpMask.h, Utils/IpMask.cpp: lists of allowed and prohibited addresses.
--   Utils/Sockets     Utils/SocketUtils.cpp: the functions that make a socket, over the answers of the
--                     system to their calls.
--   Utils/Traffic     Utils/TrafficCounter.h, Utils/TrafficCounter.cpp.
--   Utils/Crc         Utils/CrcUtils.cpp: the three tables and Crc8, Crc16 (both) and Crc32.
--   Frames/RawData    Frames/DataFrameRawData.h, Frames/DataFrameRawData.cpp: the constructor is
--                     create, the loop of parse is parse_loop with parse_round and parse_block.
--   Frames/FrameQueue Frames/QueueDataFrames.h, Frames/QueueDataFrames.cpp: one function per method;
--                     the loops of prepareSendingList and applyTicket are prepare_loop, ticket_loop.
--   Frames/Packets    Frames/DataFramesPackets.h, Frames/DataFramesPackets.cpp: headers, packets and
--                     the factory; tryExtractPacket is find_header, then extract_body. PacketType
--                     holds the enumeration.
--   Frames/Atoms      Frames/DataAtoms.h, Frames/DataAtoms.cpp: vectors of values, one type of them for
--                     all instances of the template, with a kind that tells these apart.
--   Frames/DataFrames Frames/DataFrames.cpp, Frames/DataFramesFactory.cpp and the definitions of
--                     Frames/DataFramesCommon.cpp: frames of atoms, and the factory that reads them.
--   Frames/Definitions Frames/DataFramesCommon.cpp: reading definitions from the tokens of an XML reader.
--   Frames/Mask       Frames/DataFramesMask.h, Frames/DataFramesMask.cpp: the masks and their cache.
--   Threads/DataFrames Threads/ThreadDataFrames.cpp, and QueueDataFramesPackets of
--                     Frames/DataFramesPackets.cpp: the queue holds references into a store, since
--                     the source shares packets by pointer.
--   Threads/Output    Threads/ThreadHandler.cpp: the output side. Its peer is Threads/Input.
--   Threads/Input     Threads/ThreadHandler.cpp: slotOnReadyToRead with its loops, over an interface
--                     for the packet factory, which Input/Chunks fills with that of Packets.
--   Threads/Exchange  the two sides of ThreadHandler and the packet factory together.
--   Threads/Base      Threads/ThreadBase.h, Threads/ThreadBase.cpp: the messages and the children of a
--                     thread, over the queue of Messages; Base/View is the abstract thread.
--   Threads/Lines     Threads/PacketFactoryAsciiLines.h, Threads/PacketFactoryAsciiLines.cpp: the loop
--                     of tryExtractPacket is convey_all over a record of its variables.
--   Threads/Handler   Threads/HandlerBase.cpp, Threads/HandlerTcpSocket.cpp for Linux; Handler/Reopen is
--                     onBeforeWaitEvents of Threads/ThreadHandler.cpp with slotOnConnectionStateChanged,
--                     which is run after the operation that emits the signal.
--   Threads/Listen    Threads/PollerListenSocket.cpp for Linux, Threads/ThreadListenSocket.cpp.
--   Threads/Wake      Threads/PollerThread.cpp for Linux: the signals to a thread, through its pipe.
--   Threads/Polling   Threads/PollingsLinux.cpp: the loops of poll are assign_loop and process_loop.
--   Threads/Logs      Threads/WriterLogs.cpp, and in Logs/Thread Threads/ThreadLogs.cpp; doMessageLog and
--                     logFlushBuffer call each other at most as often as a number says.
--   Threads/Messages  Threads/QueueMessages.h, Threads/QueueMessages.cpp: a call is a do block on the
--                     queue and its mutex; none is a call that never returns.
--   Prelude           names of the libraries, list lemmas, signed integers, little-endian bytes, tables
--                     of finite functions.
--
-- How the parts fit: Packets uses the checksum of Crc and the C strings of Stream, FrameQueue
-- the frames of RawData, Threads/DataFrames the packets and the factory of Packets, Output the
-- streams, Frames/DataFrames the atoms and these the streams. Handler and Listen make their sockets
-- with Sockets. Input takes a packet factory as a record
-- of operations.
--
-- Parameters: what QByteArray::resize leaves in new bytes (any list of the right length), the
-- time, how many bytes a device takes and what it reads, in Packets what DataFrame::write makes
-- of a frame and in Threads/DataFrames how many frames the factory of an application reads;
-- QString::toUpper, QString::split, QString::toInt, std::sort and the patterns of QRegExp; which
-- messages come to a thread while it processes one, and after how many rounds its children end;
-- the answers of the system to calls on sockets, to poll and to getsockopt, how much a pipe
-- holds, in Logs whether a file can be opened, how much a write takes and the encoding of text,
-- in Definitions what Qt makes of strings, in Atoms the arithmetic that turns a date into a
-- double and back, and in Lines the codecs. Elsewhere text codecs are left out: a text is its
-- bytes.
--
-- Integers: uint32_t and uint16_t wrap where the source's do; the position of parse and the length
-- of a checksum are taken modulo their width. Sizes of arrays are int in the source and stay below
-- 2 ^ 31 here, so int sums do not overflow. Lists hold no null pointers.
--
-- Depth: the calls of setConnectionState, close and setDescriptor of each other end at the first; those
-- of doMessageLog and logFlushBuffer end at any depth where all writes are complete.
--
-- Fuel: parse_loop, find_header, packet_loop and read_frames run on fuel and give none if it runs
-- out. One round more than there are blocks, bytes, packets or frames is enough; the theorems that use
-- them say so.
--
-- Not modelled: the contract builder (templates), the loop of run, logging and statistics of ThreadBase
-- with ThreadTimer and ListThreads, the handlers of datagrams and serial ports and all
-- that is for Windows (operating system), settings, the daemon and the other system utilities, the
-- demos and ThirdParty.
pub mod Prelude
pub mod Utils
pub mod Frames
pub mod Threads
