-- ===== src/Tests.antt =====
-- The theorems applied to concrete inputs, and runs of the definitions on them.
mod Chunking
mod Encoding
mod Store
mod Walking
mod Hashing
mod Pipeline
mod Running
mod Network
mod Commands
mod Searching
mod Crawling
