-- ===== src/Srcmove.antt =====
-- srcdiffvisual/srcmove: the results of srcMove, and the moves that the annotated XML shows.
pub mod Checked
pub mod Classification
pub mod Paths
pub mod Units
pub mod Results
pub mod Regions
pub mod Groups
pub mod Endpoints
pub mod Merge
pub mod Enrichment
mod Tests
