-- ===== src/Samples.antt =====
-- Tests and witnesses: the theorems at concrete inputs.
mod Tasks
mod Worker
mod Gate
mod Evolutions
mod Pool
mod Skills
