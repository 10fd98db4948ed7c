-- ===== src/Models.antt =====
-- The data that the parts exchange (gap_kernel/models/*.py).
pub mod Values
pub mod Levels
pub mod Intents
pub mod Plans
pub mod Decisions
unfoldable pub use Values.*
unfoldable pub use Levels.*
unfoldable pub use Intents.*
unfoldable pub use Plans.*
unfoldable pub use Decisions.*
