-- ===== src/Plan/Walks.antt =====
-- Walks along the dependencies of a plan.
use openburrow.Prelude.{List, Memᴰ, Text, Table}
use openburrow.Plan.Cycle.{neighbours}

-- A walk along the dependencies.
pub data Walk (g : Table (List Text)) : Text → Text → Type 0 where
  here : (x : Text) → Walk g x x
  onward : (x y z : Text) → Memᴰ y (neighbours g x) → Walk g y z → Walk g x z

-- A step that waits for itself.
abbrev pub HasLoop : Table (List Text) → Type 0
HasLoop g = (x y : Text) × Memᴰ y (neighbours g x) × Walk g y x

-- A step from which every walk ends.
pub data Grounded (g : Table (List Text)) : Text → Type 0 where
  grounded : (x : Text) → ((y : Text) → Memᴰ y (neighbours g x) → Grounded g y) → Grounded g x

-- A walk, and one step more.
pub extend :
    (g : Table (List Text)) (x y z : Text) → Walk g x y → Memᴰ z (neighbours g y) → Walk g x z
extend g x y z (Walk.here _) m = Walk.onward x z z m (Walk.here z)
extend g x y z (Walk.onward _ v _ n w) m = Walk.onward x v z n (extend g v y z w m)

-- A step of a loop is not grounded.
pub Grounded-loop :
    (g : Table (List Text)) (x : Text)
    → Grounded g x
    → (y : Text) → Memᴰ y (neighbours g x)
    → ¬ Walk g y x
Grounded-loop g x (Grounded.grounded _ f) y m (Walk.here _) =
    Grounded-loop g x (f x m) x m (Walk.here x)
Grounded-loop g x (Grounded.grounded _ f) y m (Walk.onward _ v _ n w) =
    Grounded-loop g y (f y m) v n (extend g v x y w m)
