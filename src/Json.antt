-- ===== src/Json.antt =====
-- libs/cppjson: the JSON library that reads the bodies of the requests. A text is a list of bytes.
pub mod Text
pub mod Parse
pub mod Object
pub mod Values
mod Tests
