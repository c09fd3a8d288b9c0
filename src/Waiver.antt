-- ===== src/Waiver.antt =====
-- pkg/waiver: inline waivers, which suppress findings at their own location.
pub mod Calendar
pub mod Token
pub mod DeclaredPolicy
pub mod Adjudicate
pub mod Unbound
