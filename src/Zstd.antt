-- ===== src/Zstd.antt =====
-- The zstd library, which the program only calls: its functions are a parameter of the model, and
-- `ZstdLaws` is what its documentation promises and the program relies on. `Stored` is a codec that
-- meets it, for the runs.
mod Defs
pub mod Stored
pub use Defs.{Zstd, ZstdLaws}
