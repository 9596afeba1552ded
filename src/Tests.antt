-- ===== src/Tests.antt =====
-- Runs of the definitions, and the theorems at concrete inputs.
mod Data
mod Configs
mod Envelopes
mod Consumers
mod Rings
mod Packets
mod Senders
mod Receivers
mod Producers
mod Programs
mod Segments
mod Statistics
mod Runs
mod Hosts
