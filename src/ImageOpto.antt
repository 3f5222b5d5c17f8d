-- ===== src/ImageOpto.antt =====
-- fsthttp/imageopto/imageopto.go: the options of the Image Optimizer.
pub mod Floats
pub mod Area
pub mod Modes
pub mod Options
pub mod Query
pub mod Steps
pub mod Texts
pub mod Axes
pub mod Ranges
pub mod Checks
pub mod Gaps
mod Tests
