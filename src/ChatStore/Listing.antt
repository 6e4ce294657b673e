-- ===== src/ChatStore/Listing.antt =====
-- What a listing of a room holds, and that a hidden message is not in it.
use mathlib.Core.List.{Perm}
use mathlib.Core.List.Perm
use yunmao.Base.{◌≤◌, List, [], ◌∷◌}
use yunmao.ChatStore.{Message}

-- The latest message first.
abbrev AllBelow : Message → List Message → Type 0
AllBelow m [] = Unit {0}
AllBelow m (x ∷ xs) = (x.created_at ≤ m.created_at) × AllBelow m xs

abbrev pub Descending : List Message → Type 0
Descending [] = Unit {0}
Descending (m ∷ ms) = AllBelow m ms × Descending ms
