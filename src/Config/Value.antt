-- ===== src/Config/Value.antt =====
-- The functions of mkosi/config.py that read the value of a setting. A parser gets `None` for a
-- setting that is reset to its default, and the text of the file or of the command line otherwise.
pub mod Number
pub mod Boolean
pub mod Enum
pub mod Size
pub mod Sequence
pub mod Version
pub mod Name
pub mod Path
pub mod Parts
pub mod Epoch
