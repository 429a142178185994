-- ===== src/Refresh/Keep.antt =====
-- What a refresh never touches.
use podarium.Prelude.{ℕ, Option, none, some, List, [], ◌∷◌}
use podarium.Model.Enums.{Stamp}
use podarium.Model.Episode.{Episode}
use podarium.Refresh.{Pass}
use podarium.Refresh.Apply.{IsKept}

-- Every row is still there, in its place and kept, and new ones come behind.
abbrev pub AreKept : List Episode → List Episode → Type 0
AreKept [] rows' = Unit
AreKept (e ∷ rows) [] = ⊥
AreKept (e ∷ rows) (e' ∷ rows') = IsKept e e' × AreKept rows rows'

module _ (feed_id : ℕ) (now : Stamp) where
  abbrev KeptAfter : List Episode → Option Pass → Type 0
  KeptAfter rows none = Unit
  KeptAfter rows (some m) = AreKept rows m.rows
