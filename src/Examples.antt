-- ===== src/Examples.antt =====
-- Concrete inputs, and the properties applied to them.
mod Data
mod Sends
mod Samples
mod Store
mod Packs
mod Sources
mod Packet
mod Hosts
mod Zones
mod Polls
