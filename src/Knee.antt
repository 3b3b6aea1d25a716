-- ===== src/Knee.antt =====
-- sweep/mkcharts.py: the knee charts.
mod Tests
pub mod Rows
pub mod Wrap
pub mod Legend
pub mod Clash
pub mod Style
pub mod Draw
pub mod Labels
pub mod Product
pub mod Config
pub mod Curves
pub mod Panels
pub mod Overlay
pub mod Args
pub mod Script
