-- ===== src/Storage/Oracle.antt =====
-- ora_logger/ora_cntrl: the controller that writes the journal to the database, in its parts.
pub mod Query
pub mod Settings
pub mod Controller
pub mod System
pub mod Text
pub mod Bounded
