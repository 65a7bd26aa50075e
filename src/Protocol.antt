-- ===== src/Protocol.antt =====
-- src/workloads/raw-protocol.ts: the records of a frame, the words and fields in them, and the raw
-- connections that carry frames. A byte is a number below 256, a `Uint8Array` a list of them.
pub mod Tlv
pub mod Fields
pub mod Tcp
mod Examples
