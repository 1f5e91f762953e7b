-- ===== src/Js.antt =====
-- What the program uses of the language's built-in objects.
pub mod Map
