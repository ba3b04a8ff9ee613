-- ===== src/Tests.antt =====
-- Concrete inputs for the theorems, one module per part of the program.
mod Data
mod Pools
mod Servers
mod Clients
mod Routes
mod Handshakes
mod Requests
mod Setups
mod Sessions
mod Files
mod Template
mod Starts
mod Sequences
mod Echoes
mod Indexes
