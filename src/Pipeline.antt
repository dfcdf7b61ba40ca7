-- ===== src/Pipeline.antt =====
-- How the programs work together: what cmd/mateinsert stores, the package prometheus names, selects
-- and reads back.
pub mod Paths
pub mod ReadBack
pub mod Select
pub mod Grouping
pub mod RoundTrip
pub mod QueryLabel
pub mod Browsing
