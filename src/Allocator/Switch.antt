-- ===== src/Allocator/Switch.antt =====
-- `choose_book` and `decide_pool_switch` of research/cadcad/allocator/allocator.py.
mod Ranking
mod Decide
pub use Ranking.{Candidate, All, All-map, Contains}
pub use Decide.{same_book}
unfoldable pub use Ranking.{eligible, ranking}
unfoldable pub use Decide.{choose_book, decide_pool_switch}
pub use Decide.{SwitchAction, SwitchDecision, IsJustified, decide_pool_switch-IsJustified}
