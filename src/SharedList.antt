-- ===== src/SharedList.antt =====
-- `SharedList` (cs_rcu_list.h over cs_rcu_guarded.h) as its clients see it: the items of a list,
-- with and without a handle on it, and what each operation makes of them.
pub mod Handles
pub mod Items
pub use Handles.*
pub use Items.*
