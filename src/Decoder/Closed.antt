-- ===== src/Decoder/Closed.antt =====
-- Predicates on the decoder's state that every method keeps, because each assignment to a field
-- keeps them: `Closed`. Proved once, method by method, for all such predicates.
pub mod Post
pub mod Items
pub mod Packets
