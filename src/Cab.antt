-- ===== src/Cab.antt =====
-- cab/: a writer of single-file cabinets.
pub mod Constants
pub mod Out
pub mod Mszip
pub mod Layout
pub mod Writer
pub mod Extract
pub mod RoundTrip
