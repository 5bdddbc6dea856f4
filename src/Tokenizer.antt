-- ===== src/Tokenizer.antt =====
-- WordPieceTokenizer (embedding/wordpiece_tokenizer.cc): text to the numbers that the embedding
-- model takes.
pub mod Defs
mod Basic
mod Greedy
mod Tests
