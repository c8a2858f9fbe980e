-- ===== src/Tests.antt =====
-- Concrete environments and inputs, and the theorems at them.
mod Formats
mod Messages
mod Requests
mod Stored
mod Cluster
mod Tabled
mod Served
mod Batched
mod Stores
mod Transported
mod Sending
mod Programs
mod Journeys
mod Running
