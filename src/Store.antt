-- ===== src/Store.antt =====
-- modules/broker/broker_task_store.cpp: the task store of a node. The children hold the state, the
-- containers and offloading, and what is proved about them.
pub mod State
pub mod Queue
pub mod Lifecycle
