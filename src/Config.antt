-- ===== src/Config.antt =====
-- mkosi/config.py: the configuration's types, values, settings and files.
pub mod Enums
pub mod StrEnum
pub mod Value
pub mod Values
pub mod Setting
pub mod Settings
pub mod Parse
pub mod Images
pub mod Loading
pub mod Load
pub mod Output
pub mod Architecture
pub mod Families
