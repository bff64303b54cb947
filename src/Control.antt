-- ===== src/Control.antt =====
-- core/src/types.rs: the messages of the control stream and their wire text. A `str` is its UTF-8
-- bytes. The JSON payloads go through serde_json, which is a parameter (`Json`).
pub mod Decimal
pub mod Text
pub mod Frames
mod Tests
