-- ===== src/Overlay.antt =====
-- internal/symbolicoverlay: the options of an overlay, and the supervision of its compliance.
pub mod Options
pub mod Accepted
pub mod Off
pub mod Artifact
pub mod Words
pub mod Extract
pub mod Build
pub mod Inject
pub mod Prepare
pub mod Budget
pub mod Prepared
pub mod Applied
pub mod Quotes
pub mod Compliance
pub mod Supervision
pub mod Verdicts
mod Tests
