-- ===== src/Tests.antt =====
-- Runs of the model at concrete inputs.
mod Samples
mod Broker
mod Histories
mod Wire
mod Messages
mod Transport
mod Server
mod System
mod Manager
mod Commands
