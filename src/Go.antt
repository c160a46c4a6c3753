-- ===== src/Go.antt =====
-- What the sources use of Go and its standard library: errors, instants and durations, integer
-- conversions, decimal text. An `int`, `int32` or `time.Duration` is an integer whose range is written
-- out where the code converts or saturates.
mod Errors
mod Instants
mod Decimal
mod Utf8
unfoldable pub use Errors.*
unfoldable pub use Instants.*
unfoldable pub use Decimal.*
unfoldable pub use Utf8.*
