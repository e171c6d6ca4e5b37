-- ===== src/Client/Pending.antt =====
-- An unordered_map keyed by message id, as an association list.
pub mod Keys
pub mod Lookup
use my_chat_project.Prelude.{ℕ, Option, none, some, List, [], ◌∷◌, ◌==◌, if◌then◌else◌}

abbrev pub Assoc : Type 0 → Type 0
Assoc V = List (ℕ × V)

module _ {V : Type 0} where
  -- find; `count` is whether there is an entry
  unfoldable pub find : ℕ → Assoc V → Option V
  find id [] = none
  find id ((k, v) ∷ m) = if k == id then some v else find id m

  -- m[id] = v
  unfoldable pub put : ℕ → V → Assoc V → Assoc V
  put id v [] = (id, v) ∷ []
  put id v ((k, w) ∷ m) = if k == id then (k, v) ∷ m else (k, w) ∷ put id v m

  -- erase(id)
  unfoldable pub erase : ℕ → Assoc V → Assoc V
  erase id [] = []
  erase id ((k, v) ∷ m) = if k == id then m else (k, v) ∷ erase id m

  abbrev pub keys : Assoc V → List ℕ
  keys [] = []
  keys ((k, v) ∷ m) = k ∷ keys m

-- A read m[id] makes an entry 0 where there is none.
unfoldable pub touch : ℕ → Assoc ℕ → Assoc ℕ
touch id [] = (id, 0) ∷ []
touch id ((k, n) ∷ m) = if k == id then (k, n) ∷ m else (k, n) ∷ touch id m

unfoldable pub value_or_zero : Option ℕ → ℕ
value_or_zero none = 0
value_or_zero (some n) = n

-- What such a read gives.
unfoldable pub read : ℕ → Assoc ℕ → ℕ
unfolding value_or_zero find
read id m = value_or_zero (find id m)
