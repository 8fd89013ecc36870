-- ===== src/Tests.antt =====
-- Concrete inputs at which the theorems apply.
mod Tables
mod Containers
mod Backups
mod Networks
mod Servers
mod Queues
mod Lists
mod Levels
mod Chunks
mod Rewriting
mod Bins
mod Reloaded
use tcbackup.Prelude.{ℕ, Bytes, replicate}

-- Two fingerprints of 20 bytes, and a content.
abbrev hash_a : Bytes
hash_a = replicate 20 65

abbrev hash_b : Bytes
hash_b = replicate 20 66

abbrev content_a : Bytes
content_a = replicate 3 7
