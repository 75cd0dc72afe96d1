-- ===== src/Config.antt =====
-- src/vibe/config.py
pub mod Commands
