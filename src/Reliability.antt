-- ===== src/Reliability.antt =====
-- protocol/src/reliability: the two halves of the reliable command stream, receiving (Window) and sending
-- (Queue).
pub mod Window
pub mod Queue
