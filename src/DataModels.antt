-- ===== src/DataModels.antt =====
-- persistence/data_models: the values that the process store keeps in the columns of its tables.
pub mod Enums
pub mod StateIds
pub mod Sequences
pub mod LocalQueues
pub mod Infos
