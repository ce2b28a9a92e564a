-- ===== src/Go.antt =====
-- What the source uses of Go's standard library, over byte lists.
pub mod Text
pub mod Int
