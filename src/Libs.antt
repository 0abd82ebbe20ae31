-- ===== src/Libs.antt =====
-- libs/string.c: copying and filling memory, and the comparison of strings.
pub mod Memory
pub mod Strings
pub mod CString
