-- ===== src/Tests.antt =====
-- Runs of the model on concrete data, and each theorem at an input that meets its hypotheses.
mod Pools
mod Timers
mod Mempools
mod Lists
mod Packets
mod Proxies
mod Threads
mod Messages
mod Handlers
mod Configs
mod Servers
