-- ===== src/Tools.antt =====
-- backend/app/tools: the connectors, the choice among them, and the executor.
pub mod Base
pub mod Mock
pub mod Freshservice
pub mod Freshdesk
pub mod Tickets
pub mod Registry
pub mod Executor
