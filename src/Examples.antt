-- ===== src/Examples.antt =====
-- Runs of the model on small inputs, and the properties at those inputs. `Toy` stands in for the
-- rust-bitcoin crate.
pub mod Toy
mod Parsing
mod Proofs
mod Qbit
mod Epochs
mod Classify
mod Catalogued
mod Polled
pub mod Backboned
mod Hathored
mod Reorged
mod Followed
