-- ===== src/Parse.antt =====
-- parse.c: the decisions of the parser on priorities and associativity, and its work lists.
pub mod Priority
pub mod Path
pub mod Queue
pub mod Heap
pub mod Ambiguity
