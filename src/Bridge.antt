-- ===== src/Bridge.antt =====
-- internal/ui/bridge: the bytes between a person's SSH channel, the screens and the doors.
pub mod Osc
pub mod Input
pub mod Bus
