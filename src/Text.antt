-- ===== src/Text.antt =====
-- How the program writes numbers into text, and reads them back.
pub mod Digits
pub mod Stream
