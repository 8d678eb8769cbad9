-- ===== src/Util.antt =====
-- util.c and util.h: the growable vector, the pointer set and the set by a hash function.
pub mod Vec
pub mod Set
pub mod Hashed
