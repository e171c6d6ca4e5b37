-- ===== src/ChatServer/Threads/Safety.antt =====
-- The connection map over any interleaving of the server's threads.
use my_chat_project.Prelude.{
  ℕ, ◌≡◌, ◌∙◌, sym, subst, ap, arith, Bool-cases, ◌⊎◌, inl, inr, some, Option-cases, List, [], ◌∷◌,
  ℤ, eq_int, eq_int_iff,
}
use my_chat_project.Exec.Threads.Pool.{Choice, begin, turn, run_pool, AllBegun, run_pool-Guarded}
use my_chat_project.Externals.{Externals}
use my_chat_project.Model.{DbTaskArgs}
use my_chat_project.Service.Conns
use my_chat_project.Service.Conns.{
  ConnMap, IsMap, insert, erase, find-insert, find-erase, insert-IsMap, erase-IsMap,
}
use my_chat_project.Service.{Server}
use my_chat_project.Service.Dispatch.{login_handler}
use my_chat_project.Service.Invariant.{OnShared}
use my_chat_project.ChatServer.Threads.{Call, request, thread_of}
use my_chat_project.ChatServer.Threads.Guards.{Admitted, thread_of-Guarded}

-- What an insertion may have stored.
find-insert_cases :
    (k id : ℤ) (c conn : ℕ) (m : ConnMap)
    → Conns.find id (insert k c m) ≡ some conn
    → (Conns.find id m ≡ some conn) ⊎ ((k ≡ id) × (c ≡ conn))
find-insert_cases k id c conn m f = elim (Bool-cases (eq_int k id)) [
  | inr other ↦ inl (rw other at (sym (find-insert k id c m) ∙ f))
  | inl same ↦
      let e : k ≡ id = (eq_int_iff k id).0 same in
      elim (Option-cases (Conns.find k m)) [
        | inl new ↦ inr (e, ground (arith, find-insert k id c m))
        | inr (d, held) ↦
            inl (subst (λ j. Conns.find j m ≡ some conn) e (ground (arith, find-insert k id c m)))
      ]
]

find-erase_held :
    (k id : ℤ) (conn : ℕ) (m : ConnMap)
    → IsMap m
    → Conns.find id (erase k m) ≡ some conn
    → Conns.find id m ≡ some conn
find-erase_held k id conn m v f = ground (arith, find-erase k id m v)

module _ {Json Db Rs G Ctx : Type 0} (x : Externals Json Db Rs G Ctx) where
  -- The call is a login on a connection that a row admits for the user.
  abbrev pub LogsIn : Call Json → ℤ → ℕ → Type 0
  LogsIn c id conn = (js : Json) × (c ≡ request login_handler conn js) × Admitted x js id

  -- One of the threads that are begun is such a login.
  abbrev pub BeginsLogin : List (Choice (Call Json)) → ℤ → ℕ → Type 0
  BeginsLogin [] id conn = ⊥
  BeginsLogin (begin c ∷ choices) id conn = LogsIn c id conn ⊎ BeginsLogin choices id conn
  BeginsLogin (turn i ∷ choices) id conn = BeginsLogin choices id conn

  all-IsMap :
      (choices : List (Choice (Call Json)))
      → AllBegun {S = Server Db Rs G} (OnShared (λ m q. IsMap m)) (thread_of x) choices
  all-IsMap [] = tt
  all-IsMap (begin c ∷ choices) = (
    thread_of-Guarded x (λ m q. IsMap m) (λ m q t h. h) c (λ id m q h. erase-IsMap id m h)
        (λ m t q h. h) (λ conn js id m q e a h. insert-IsMap id conn m h),
    all-IsMap choices,
  )
  all-IsMap (turn i ∷ choices) = all-IsMap choices

  -- Whatever handlers, closed connections, messages from redis and rounds of the database thread
  -- run at the same time, and however their steps interleave, no user has two entries in the
  -- connection map, if none had before.
  pub run_pool-IsMap :
      (choices : List (Choice (Call Json))) (s : Server Db Rs G)
      → IsMap s.conns
      → IsMap (run_pool (thread_of x) choices (record { shared = s; threads = [] })).shared.conns
  run_pool-IsMap choices s v =
      run_pool-Guarded (OnShared (λ m q. IsMap m)) (thread_of x) choices
        (record { shared = s; threads = [] }) (all-IsMap choices) tt v

  module _ (id : ℤ) (conn : ℕ) (T : Type 0) where
    abbrev Held : ConnMap → List DbTaskArgs → Type 0
    Held m q = IsMap m × (Conns.find id m ≡ some conn → T)

    insert-Held :
        (k : ℤ) (c : ℕ) (m : ConnMap) (q : List DbTaskArgs)
        → ((k ≡ id) × (c ≡ conn) → T)
        → Held m q
        → Held (insert k c m) q
    insert-Held k c m q new (v, h) = (
      insert-IsMap k c m v,
      λ f. elim (find-insert_cases k id c conn m f) [ inl old ↦ h old | inr same ↦ new same ],
    )

    all-Held :
        (choices : List (Choice (Call Json)))
        → (BeginsLogin choices id conn → T)
        → AllBegun {S = Server Db Rs G} (OnShared Held) (thread_of x) choices
    all-Held [] begins = tt
    all-Held (begin c ∷ choices) begins = (
      thread_of-Guarded x Held (λ m q t h. h) c
          (λ k m q h. (erase-IsMap k m h.0, λ f. h.1 (find-erase_held k id conn m h.0 f)))
          (λ m t q h. h)
          (λ conn' js k m q e a. insert-Held k conn' m q (λ same. begins (
            inl (
              js,
              e ∙ ap (λ (n : ℕ). request login_handler n js) same.1,
              subst (Admitted x js) same.0 a,
            )))),
      all-Held choices (λ b. begins (inr b)),
    )
    all-Held (turn i ∷ choices) begins = all-Held choices begins

  -- However the steps interleave, a user who ends up on a connection was on it before, or one of
  -- the handlers that ran is a login on that connection for that user, with a password that
  -- some state of the database has in a row of that user that is not Online. No user had two entries before.
  pub find-run_pool :
      (choices : List (Choice (Call Json))) (id : ℤ) (conn : ℕ) (s : Server Db Rs G)
      → IsMap s.conns
      → Conns.find id
          (run_pool (thread_of x) choices (record { shared = s; threads = [] })).shared.conns
        ≡ some conn
      → (Conns.find id s.conns ≡ some conn) ⊎ BeginsLogin choices id conn
  find-run_pool choices id conn s v f =
      let T = (Conns.find id s.conns ≡ some conn) ⊎ BeginsLogin choices id conn in
      let kept =
        run_pool-Guarded (OnShared (Held id conn T)) (thread_of x) choices
          (record { shared = s; threads = [] }) (all-Held id conn T choices inr) tt (v, inl) in
      kept.1 f
