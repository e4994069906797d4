-- ===== src/Jsonl.antt =====
-- src/jsonl.cc.
pub mod Lex
pub mod Parse
pub mod Print
pub mod Fields
pub mod StringReads
pub mod NumberReads
pub mod Total
pub mod RoundTrip
pub mod Numbers
pub mod Arrays
pub mod Objects
mod Tests
