-- ===== src/Server.antt =====
-- crates/mirum-server: the builds that a webhook queues, in their table, and the one worker that runs
-- them.
pub mod Arguments
pub mod Types
pub mod Table
pub mod Lowercase
pub mod Webhook
pub mod Build
pub mod Pages
pub mod Serving
pub mod Start
pub mod System
pub mod Config
