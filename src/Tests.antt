-- ===== src/Tests.antt =====
-- Concrete runs of the models: the inputs at which the theorems are applied.
mod Containers
mod Scanning
mod Tables
mod Heaps
mod Paths
mod Parsing
mod Runs
mod Returns
mod States
mod Symbols
mod Scanners
mod Automata
mod Expressions
mod Escapes
