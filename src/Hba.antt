-- ===== src/Hba.antt =====
-- src/hba.c and include/hba.h: the parser of the host-based access file and of the ident map, and
-- the choice of a rule for a connection. Lines are C strings; memory is never short; messages to
-- the log are left out.
pub mod Token
pub mod StrSet
pub mod Names
pub mod Ident
pub mod Address
pub mod Rules
pub mod Match
mod Tests
