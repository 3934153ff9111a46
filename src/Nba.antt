-- ===== src/Nba.antt =====
-- backend/app/engine/nba_engine.py: the next best action of a case.
pub mod Propose
pub mod Steps
pub mod Closing
pub mod Decide
pub mod InFlight
pub mod Choice
