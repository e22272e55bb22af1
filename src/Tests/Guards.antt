-- ===== src/Tests/Guards.antt =====
-- The theorem on handles at a small list.
use cs_signal.Prelude.{ℕ, ◌≡◌, some, List, [], ◌∷◌}
use cs_signal.Guarded.{GuardedLists, write_handle}
use cs_signal.Guarded.Lifetime.{Use, touch, lifetime, lock_once, lifetime-once}
use cs_signal.Tests.{haunted}

abbrev lists : GuardedLists ℕ
lists p = some haunted

-- A handle that is accessed twice.
abbrev uses : List Use
uses = touch ∷ touch ∷ []

lifetime-once_example : lifetime write_handle 3 5 uses lists ≡ lock_once write_handle 3 5 lists
lifetime-once_example = lifetime-once write_handle 3 5 uses lists
