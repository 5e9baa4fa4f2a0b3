-- ===== src/Model.antt =====
-- domain/model: the data of the battle service. A `Date` is its `getTime()`, a number of
-- milliseconds; `null` and `undefined` are `none`.
mod Players
mod Battles
mod SongSelections
mod Rooms
mod WordRaces
mod MatchRecords
mod WireValues
pub use Players.*
pub use Battles.*
pub use SongSelections.*
pub use Rooms.*
pub use WordRaces.*
pub use MatchRecords.*
pub use WireValues.*
