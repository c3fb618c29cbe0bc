-- ===== src/ProtocolV3.antt =====
-- v3.c: version 3 of the protocol, as far as it differs from version 1.
pub mod Signatures
pub mod Dictionary
pub mod Transactions
pub mod Hello
pub mod Assignment
pub mod Settings
pub mod Greeting
