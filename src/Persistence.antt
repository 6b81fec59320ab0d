-- ===== src/Persistence.antt =====
-- src/persistence/: the files that keep the commands and the values.
pub mod Aof
