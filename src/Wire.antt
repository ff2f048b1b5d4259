-- ===== src/Wire.antt =====
-- src/polodb/wire: the header of a message.
pub mod Header
pub mod RoundTrip
pub mod Examples
