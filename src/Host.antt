-- ===== src/Host.antt =====
-- internal/host: the parsers of host facts.
pub mod MappingCapabilities
pub mod RoundTrip
mod Tests
