-- ===== src/Service/Conns.antt =====
-- ChatService::_userConnMap, an unordered_map<int, TcpConnectionPtr>, as an association list.
use mathlib.Core.Bool.{false≢true}
use my_chat_project.Prelude.{
  ℕ, ◌≡◌, ◌≢◌, refl, arith, Option, none, some, List, [], ◌∷◌, ℤ, eq_int, eq_int_iff, ◌==◌,
  if◌then◌else◌, Bool-cases, inl, inr, sym, ◌∙◌,
}

abbrev pub ConnMap : Type 0
ConnMap = List (ℤ × ℕ)

-- find
unfoldable pub find : ℤ → ConnMap → Option ℕ
find id [] = none
find id ((k, c) ∷ m) = if eq_int k id then some c else find id m

-- insert leaves an entry that is there as it is.
unfoldable pub insert : ℤ → ℕ → ConnMap → ConnMap
insert id conn [] = (id, conn) ∷ []
insert id conn ((k, c) ∷ m) = if eq_int k id then (k, c) ∷ m else (k, c) ∷ insert id conn m

-- erase(find(id)), where it is there
unfoldable pub erase : ℤ → ConnMap → ConnMap
erase id [] = []
erase id ((k, c) ∷ m) = if eq_int k id then m else (k, c) ∷ erase id m

-- The user of the first entry that holds a connection.
unfoldable pub user_of : ℕ → ConnMap → Option ℤ
user_of conn [] = none
user_of conn ((k, c) ∷ m) = if c == conn then some k else user_of conn m

-- No user has two entries.
abbrev pub Fresh : ℤ → ConnMap → Type 0
Fresh id [] = Unit {0}
Fresh id ((k, c) ∷ m) = (k ≢ id) × Fresh id m

abbrev pub IsMap : ConnMap → Type 0
IsMap [] = Unit {0}
IsMap ((k, c) ∷ m) = Fresh k m × IsMap m

pub find-insert :
    (id other : ℤ) (conn : ℕ) (m : ConnMap)
    → find other (insert id conn m) ≡ (
        if eq_int id other
        then (elim (find id m) [ none ↦ some conn | some c ↦ some c ])
        else find other m)
unfolding find insert
find-insert id other conn [] = ground arith
find-insert id other conn ((k, c) ∷ m) =
    ground
      (arith, eq_int_iff k id, eq_int_iff k other, eq_int_iff id other, find-insert id other conn m)

Fresh-insert : (k id : ℤ) (conn : ℕ) (m : ConnMap) → id ≢ k → Fresh k m → Fresh k (insert id conn m)
unfolding insert
Fresh-insert k id conn [] h f = (h, tt)
Fresh-insert k id conn ((j, c) ∷ m) h f = ground (arith, Fresh-insert k id conn m h f.1)

pub insert-IsMap : (id : ℤ) (conn : ℕ) (m : ConnMap) → IsMap m → IsMap (insert id conn m)
unfolding insert
insert-IsMap id conn [] v = (tt, tt)
insert-IsMap id conn ((k, c) ∷ m) v = elim (Bool-cases (eq_int k id)) [
  | inl same ↦ rw (same, insert) v
  | inr other ↦
      rw (other, insert)
        (
          Fresh-insert k id conn m (λ p. false≢true (sym other ∙ (eq_int_iff k id).1 (sym p))) v.0,
          insert-IsMap id conn m v.1,
        )
]

Fresh-erase : (k id : ℤ) (m : ConnMap) → Fresh k m → Fresh k (erase id m)
unfolding erase
Fresh-erase k id [] f = tt
Fresh-erase k id ((j, c) ∷ m) f = ground (arith, Fresh-erase k id m f.1)

pub erase-IsMap : (id : ℤ) (m : ConnMap) → IsMap m → IsMap (erase id m)
unfolding erase
erase-IsMap id [] v = tt
erase-IsMap id ((k, c) ∷ m) v = ground (arith, Fresh-erase k id m v.0, erase-IsMap id m v.1)

pub find-Fresh : (id : ℤ) (m : ConnMap) → Fresh id m → find id m ≡ none
unfolding find
find-Fresh id [] f = refl
find-Fresh id ((k, c) ∷ m) f = ground (arith, eq_int_iff k id, find-Fresh id m f.1)

pub find-erase :
    (id other : ℤ) (m : ConnMap)
    → IsMap m
    → find other (erase id m) ≡ (if eq_int id other then none else find other m)
unfolding find erase
find-erase id other [] v = ground arith
find-erase id other ((k, c) ∷ m) v = ground (
  arith,
  eq_int_iff k id,
  eq_int_iff k other,
  eq_int_iff id other,
  find-erase id other m v.1,
  find-Fresh k m v.0,
)
