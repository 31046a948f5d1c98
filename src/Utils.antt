-- ===== src/Utils.antt =====
-- src/UtilsSystem.cpp: string helpers and the two user messages, one child for each.
pub mod View
pub mod Copy
pub mod Replace
pub mod ShowMenu
pub mod Trim
pub mod TextMsg
