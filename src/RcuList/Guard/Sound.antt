-- ===== src/RcuList/Guard/Sound.antt =====
-- A list whose cells and whose zombie list are both in order.
use cs_signal.Prelude.{ℕ, ◌<◌, List, [], ◌∷◌}
use cs_signal.RcuList.{RcuList, ZombieListNode}
use cs_signal.RcuList.Chain.{Cells, Repr}
use cs_signal.RcuList.Guard.Zombies.{AreDead}

-- The addresses of the entries fall along the zombie list: the newest is the highest.
abbrev pub Falling : ℕ → List ZombieListNode → Type 0
Falling f [] = Unit {0}
Falling f (e ∷ es) = (e.addr < f) × Falling e.addr es

pub record IsSound {ℓ} {A : Type ℓ} (l : RcuList A) (xs : Cells A) : Type ℓ where
  pub repr : Repr l xs
  pub dead : AreDead l.fresh l.nodes xs [] l.zombies
  pub falling : Falling l.fresh l.zombies
