-- ===== src/Promotion.antt =====
-- src/second_brain/promotion: how a candidate that has passed the gate is promoted.
pub mod Decide
pub mod Rules
