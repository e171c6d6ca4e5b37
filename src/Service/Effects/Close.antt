-- ===== src/Service/Effects/Close.antt =====
-- src/server/chatservice.cpp, clientCloseException: what becomes of the users of a connection.
use mathlib.Core.Bool.{false≢true}
use my_chat_project.Prelude.{
  ℕ, ◌≡◌, ◌≢◌, ◌∙◌, ap, sym, refl, arith, false, ◌⊎◌, inl, inr, Bool, Option, none, some, List, [],
  ◌∷◌, ◌++◌, ℤ, minus_one, eq_int, eq_int_iff, if◌then◌else◌, Bool-cases, Option-cases, append-nil,
}
use my_chat_project.Externals.{Externals}
use my_chat_project.Model.{DbTaskArgs, offline}
use my_chat_project.DbTask.{push}
use my_chat_project.Service.Conns
use my_chat_project.Service.Conns.{ConnMap, IsMap, find-erase, find-Fresh}
use my_chat_project.Service.{Server, state_task}
use my_chat_project.Service.Account.{client_close_exception, erase_user, closed_user}

-- The search has come upon this user.
abbrev pub is_found : Option ℤ → ℤ → Bool
is_found none id = false
is_found (some k) id = eq_int k id

find-erase_user :
    (found : Option ℤ) (id : ℤ) (m : ConnMap)
    → IsMap m
    → Conns.find id (erase_user found m) ≡ (if is_found found id then none else Conns.find id m)
unfolding erase_user
find-erase_user none id m v = refl
find-erase_user (some k) id m v = find-erase k id m v

-- The first entry with the connection belongs to a user who is on it.
find-user_of :
    (conn : ℕ) (k : ℤ) (m : ConnMap)
    → IsMap m
    → Conns.user_of conn m ≡ some k
    → Conns.find k m ≡ some conn
unfolding Conns.user_of Conns.find
find-user_of conn k [] v e = cc
find-user_of conn k ((j, c) ∷ m) v e =
    ground (arith, eq_int_iff j k, find-user_of conn k m v.1, find-Fresh j m v.0)

-- A connection that a user is on is found.
user_of-ne-none :
    (conn : ℕ) (id : ℤ) (m : ConnMap) → Conns.find id m ≡ some conn → Conns.user_of conn m ≢ none
unfolding Conns.user_of Conns.find
user_of-ne-none conn id [] f e = cc
user_of-ne-none conn id ((j, c) ∷ m) f e = ground (arith, user_of-ne-none conn id m)

module _ {Json Db Rs G Ctx : Type 0} (x : Externals Json Db Rs G Ctx) where
  -- The task that is queued.
  abbrev pub closing_tasks : Option ℤ → List DbTaskArgs
  closing_tasks none = []
  closing_tasks (some k) = if eq_int k minus_one then [] else state_task x k offline ∷ []

  closed_cases :
      (found : Option ℤ) (conn : ℕ) (s : Server Db Rs G)
      → Conns.user_of conn s.conns ≡ found
      → ((client_close_exception x conn s).1.conns ≡ erase_user found s.conns)
        × ((client_close_exception x conn s).1.tasks ≡ s.tasks ++ closing_tasks found)
  unfolding client_close_exception push closed_user erase_user eq_int
  closed_cases none conn s e = rw e (refl, sym (append-nil s.tasks))
  closed_cases (some k) conn s e = rw e (elim (Bool-cases (eq_int k minus_one)) [
    | inl none_stored ↦ rw none_stored (refl, sym (append-nil s.tasks))
    | inr known ↦ rw known (refl, refl)
  ])

  -- Where a connection closes, a user who is on it either is the one that the search finds first: then
  -- the entry goes, and a task is queued that stores Offline for the user, unless the id is -1; or
  -- the user stays in the map on that connection, another user who was on it is erased instead,
  -- and the only task that is queued is for that other user. No user had two entries.
  pub find-client_close_exception :
      (conn : ℕ) (id : ℤ) (s : Server Db Rs G)
      → IsMap s.conns
      → Conns.find id s.conns ≡ some conn
      → ((Conns.find id (client_close_exception x conn s).1.conns ≡ none)
          × ((client_close_exception x conn s).1.tasks ≡ s.tasks ++ closing_tasks (some id)))
        ⊎ ((other : ℤ) × (other ≢ id)
            × (Conns.find other s.conns ≡ some conn)
            × (Conns.find id (client_close_exception x conn s).1.conns ≡ some conn)
            × (Conns.find other (client_close_exception x conn s).1.conns ≡ none)
            × ((client_close_exception x conn s).1.tasks ≡ s.tasks ++ closing_tasks (some other)))
  find-client_close_exception conn id s v f = elim (Option-cases (Conns.user_of conn s.conns)) [
    | inl e ↦ absurd (user_of-ne-none conn id s.conns f e)
    | inr (k, e) ↦
        let (conns, tasks) = closed_cases (some k) conn s e in
        let erased = λ (j : ℤ). ap (Conns.find j) conns ∙ find-erase_user (some k) j s.conns v in
        elim (Bool-cases (eq_int k id)) [
          | inl same ↦ inl (
            erased id ∙ rw same refl,
            tasks ∙ ap (λ j. s.tasks ++ closing_tasks (some j)) ((eq_int_iff k id).0 same),
          )
          | inr differs ↦ inr (
            k,
            λ p. false≢true (sym differs ∙ (eq_int_iff k id).1 p),
            find-user_of conn k s.conns v e,
            erased id ∙ rw differs f,
            erased k ∙ rw ((eq_int_iff k k).1 refl) refl,
            tasks,
          )
        ]
  ]
