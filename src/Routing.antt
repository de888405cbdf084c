-- ===== src/Routing.antt =====
-- runar-node/src/routing
pub mod Segment
pub mod Bitmap
pub mod TopicPath
pub mod Navigation
pub mod Equality
pub mod Invariant
pub mod Parsing
pub mod Matching
pub mod Template
pub mod Tests
