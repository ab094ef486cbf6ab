-- ===== src/Srcdiff.antt =====
-- The annotated XML of srcDiff: its elements, their names and units, the sources that it renders to,
-- and positions in them.
pub mod Elements
pub mod Positions
pub mod Renderer
pub mod PathLists
pub mod Attributes
pub mod Tree
pub mod Builder
pub mod XmlSpans
mod Tests
