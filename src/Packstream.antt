-- ===== src/Packstream.antt =====
-- src/seabolt/src/bolt/packstream.c: values to bytes and back.
pub mod Result
pub mod Load
pub mod Unload
pub mod Encoding
pub mod Writes
pub mod Extends
pub mod Parses
pub mod Sizes
pub mod Markers
pub mod Containers
pub mod RoundTrip
pub mod Settles
pub mod Termination
