-- ===== src/Tests.antt =====
-- The theorems of the library at concrete inputs.
mod Project
mod Services
mod Devices
mod Transfer
mod Connections
mod Store
mod Queues
mod Workers
mod Cluster
mod Replicas
mod Controller
mod Clients
