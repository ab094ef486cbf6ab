-- ===== src/Artifacts.antt =====
-- srcdiffvisual/artifacts: the inventory and the retention of published artifacts.
pub mod Inventory
pub mod Retention
mod Tests
