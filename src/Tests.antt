-- ===== src/Tests.antt =====
-- The theorems at concrete inputs: a codec, browsers and servers that their hypotheses hold for.
pub mod Data
pub mod Session
pub mod Gates
pub mod Lists
pub mod Mail
pub mod Pages
pub mod Tenants
pub mod Messages
pub mod Dialogs
pub mod Directory
pub mod Admin
pub mod Account
