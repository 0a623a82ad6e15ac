-- ===== src/Replication.antt =====
-- internal/database/replication: the protocol between master and slave, and the slave.
pub mod Protocol
pub mod Slave
pub mod Master
