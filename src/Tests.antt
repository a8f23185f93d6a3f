-- ===== src/Tests.antt =====
-- Concrete runs: each theorem with hypotheses at an input that meets them.
mod Instance
mod Caches
mod Octets
mod Layers
mod Tables
mod Positions
mod Options
mod Frames
mod Threads
mod Files
mod Stations
mod Aircraft
mod Formats
mod Blocks
