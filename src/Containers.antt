-- ===== src/Containers.antt =====
-- include/containers.
pub mod Heap
pub mod SList
