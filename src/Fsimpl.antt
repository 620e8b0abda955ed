-- ===== src/Fsimpl.antt =====
-- fsimpl/: helpers that file systems are made of.
pub mod Readdir
pub mod Qids
