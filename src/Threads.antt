-- ===== src/Threads.antt =====
-- The library's Threads: the exchange of packets with a peer, device threads, messages and children
-- of threads, lines of text, connections, listening, polling and signals, and the log.
pub mod DataFrames
pub mod Output
pub mod Input
pub mod Exchange
pub mod Messages
pub mod Base
pub mod Lines
pub mod Handler
pub mod Logs
pub mod Polling
pub mod Listen
pub mod Wake
