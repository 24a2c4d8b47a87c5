-- ===== src/Types.antt =====
-- include/bmboot.hpp: what the manager and the executors share, and src/utility/to_string.cpp in
-- the child `Names`.
mod Enums
pub mod Names
pub use Enums.*
