-- ===== src/Prometheus.antt =====
-- The package prometheus: Graphite targets as label filters, and MateQL queries over them.
pub mod Glob
pub mod Converter
pub mod Covert
pub mod Response
