-- ===== src/Service.antt =====
-- service/async: which shards an instance owns. service/api: the requests of clients.
pub mod Shards
pub mod Api
pub mod Cluster
pub mod Waiting
