-- ===== src/Push.antt =====
-- Push notification configurations, a2asrv/push.
pub mod Store
pub mod Configs
