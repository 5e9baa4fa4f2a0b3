-- ===== src/Examples.antt =====
-- Runs of the model on small rooms: the properties applied to concrete data, and what the code gives.
mod Samples
mod Scores
mod Stores
mod Names
mod Clients
mod Votes
mod Songs
mod Races
mod Hubs
mod Timers
mod Connections
mod Settings
mod Services
