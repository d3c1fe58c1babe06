-- ===== src/Guarantees/Creation.antt =====
-- What the creation of notifications promises: all or nothing, and once for each key.
pub mod Steps
pub mod Keys
pub mod Facts
pub mod Single
pub mod Transactions
pub mod Once
pub mod Race
pub mod Batch
pub mod BatchOnce
