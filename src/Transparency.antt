-- ===== src/Transparency.antt =====
-- Anchoring of an audit chain (raucle/transparency.py): the head of a file, and the offline check of a
-- statement about it.
pub mod Head
pub mod Anchor
pub mod Written
