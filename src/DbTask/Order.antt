-- ===== src/DbTask/Order.antt =====
-- The order of the tasks of src/server/redis/dbtask.cpp.
use my_chat_project.Prelude.{
  append-nil, ◌≡◌, refl, List, [], ◌∷◌, ◌++◌, length, append_assoc, sym, ◌∙◌,
}
use my_chat_project.Exec.{Outcome, ok, throws, undefined, for_each, continue}
use my_chat_project.Externals.{MysqlLib}
use my_chat_project.Model.{DbTaskArgs}
use my_chat_project.DbTask.{work_on, push, pop, perform, work_once, work}

-- Pushing one task after the other.
unfoldable pub push_all : List DbTaskArgs → List DbTaskArgs → List DbTaskArgs
push_all [] queue = queue
push_all (t ∷ tasks) queue = push_all tasks (push t queue)

push_all-append : (tasks queue : List DbTaskArgs) → push_all tasks queue ≡ queue ++ tasks
unfolding push_all push
push_all-append [] queue = sym (append-nil queue)
push_all-append (t ∷ tasks) queue =
    push_all-append tasks (queue ++ t ∷ []) ∙ append_assoc queue (t ∷ []) tasks

module _ {Db : Type 0} (m : MysqlLib Db) where
  after-perform :
      (tasks later : List DbTaskArgs) (r : Outcome (Unit {0})) (db : Db)
      → ((db : Db)
          → (for_each tasks (perform m) db).0 ≡ ok tt
          → work m (length tasks) (record { queue = tasks ++ later; db = db })
            ≡ (ok tt, record { queue = later; db = (for_each tasks (perform m) db).1 }))
      → (continue r (λ _. for_each tasks (perform m)) db).0 ≡ ok tt
      → continue r (λ _. work m (length tasks)) (record { queue = tasks ++ later; db = db }) ≡ (
        ok tt,
        record { queue = later; db = (continue r (λ _. for_each tasks (perform m)) db).1 },
      )
  after-perform tasks later (ok u) db ih h = ih db h
  after-perform tasks later (throws e) db ih h = cc
  after-perform tasks later undefined db ih h = cc

  -- A run of the worker and of the tasks one by one, as far as they go well.
  work-for_each :
      (tasks later : List DbTaskArgs) (db : Db)
      → (for_each tasks (perform m) db).0 ≡ ok tt
      → work m (length tasks) (record { queue = tasks ++ later; db = db })
        ≡ (ok tt, record { queue = later; db = (for_each tasks (perform m) db).1 })
  unfolding for_each work work_once work_on pop
  work-for_each [] later db h = refl
  work-for_each (t ∷ tasks) later db h =
      after-perform tasks later (perform m t db).0 (perform m t db).1 (work-for_each tasks later) h

  -- Tasks that are pushed on an empty queue, with others behind them, are performed in the order of
  -- the pushes, in as many rounds as there are, and the others stay in the queue; where each of them
  -- goes well.
  pub work-push_all :
      (tasks later : List DbTaskArgs) (db : Db)
      → (for_each tasks (perform m) db).0 ≡ ok tt
      → work m (length tasks) (record { queue = push_all later (push_all tasks []); db = db })
        ≡ (ok tt, record { queue = later; db = (for_each tasks (perform m) db).1 })
  work-push_all tasks later db h =
      rw (push_all-append tasks [], push_all-append later tasks) (work-for_each tasks later db h)
