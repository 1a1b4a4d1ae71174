-- ===== src/Tests.antt =====
-- Runs of the modelled code at concrete inputs.
mod Fixtures
mod Reconciling
mod Writing
mod Values
mod Codecs
mod Concluding
mod Encodings
mod Memory
mod Shuffling
mod Shelves
mod Provisioning
mod World
mod Apart
mod Estate
mod Whole
mod Indexing
mod Starting
