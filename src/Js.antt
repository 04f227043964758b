-- ===== src/Js.antt =====
-- What the program uses of the JavaScript language and its standard library.
pub mod Text
pub mod Value
pub mod Json
pub mod Indented
pub mod Runtime
