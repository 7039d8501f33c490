-- ===== src/Converter.antt =====
-- pkg/mrt_converter/mrt_converter.go: the conversion of an MRT archive into JSON lines, and of an
-- archived object into a converted one.
pub mod Interface
pub mod Collector
pub mod Update
pub mod Stream
pub mod Loop
pub mod Archive
