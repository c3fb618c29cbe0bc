-- ===== src/ProtocolV1.antt =====
-- src/seabolt/src/bolt/v1.c, v2.c: versions 1 and 2 of the protocol, which differ in the structures
-- that they accept. Log lines are not part of the model.
pub mod Code
pub mod Signatures
pub mod Session
pub mod Requests
pub mod Metadata
pub mod Responses
pub mod Assembly
pub mod Unloading
pub mod Extraction
pub mod Settling
pub mod Summaries
pub mod Arrival
pub mod Fetching
pub mod Loading
