-- ===== src/DbTask.antt =====
-- src/server/redis/dbtask.cpp: the queue of database tasks and the worker that takes them off.
-- The mutex makes each push and pop one step.
pub mod Order
pub mod Bounds
use my_chat_project.Prelude.{
  ℕ, zero, suc, ◌+◌, Bool, Option, none, some, List, [], ◌∷◌, ◌++◌, minus_one, codes, if◌then◌else◌,
}
use my_chat_project.Exec.{
  Exec, Outcome, ok, throws, undefined, pure, catch, continue, zoom, ◌>>=◌, ◌>>◌,
}
use my_chat_project.Externals.{MysqlLib}
use my_chat_project.Model.{
  User, Group, DbTaskArgs, DbTaskType, db_task_update_user_state, db_task_insert_offline_msg,
  db_task_add_friend, db_task_create_group, db_task_add_group_user,
}
use my_chat_project.Db.UserModel
use my_chat_project.Db.FriendModel
use my_chat_project.Db.GroupModel
use my_chat_project.Db.OfflineMsgModel

-- DbTaskQueue::push
unfoldable pub push : DbTaskArgs → List DbTaskArgs → List DbTaskArgs
push task queue = queue ++ task ∷ []

-- DbTaskQueue::pop; `none` where the caller waits.
unfoldable pub pop : List DbTaskArgs → Option (DbTaskArgs × List DbTaskArgs)
pop [] = none
pop (task ∷ queue) = some (task, queue)

-- The queue and the database that the worker works on.
pub record Work (Db : Type 0) : Type 0 where
  pub queue : List DbTaskArgs
  pub db : Db

module _ {Db : Type 0} (m : MysqlLib Db) where
  -- The cases of the switch in dbWork; what a call returns is only logged.
  unfoldable pub perform_as : DbTaskType → DbTaskArgs → Exec Db (Unit {0})
  perform_as db_task_add_friend t = FriendModel.insert m t.userid t.friendid
  perform_as db_task_add_group_user t = do
    GroupModel.add_group m t.userid t.groupid (codes "normal")
    pure tt
  perform_as db_task_create_group t = do
    GroupModel.create_group m (record { id = minus_one; name = t.name; desc = t.desc; users = [] })
    pure tt
  perform_as db_task_insert_offline_msg t = OfflineMsgModel.insert m t.toid t.msg
  perform_as db_task_update_user_state t = do
    UserModel.update_state m (record { id = t.userid; name = []; password = []; state = t.state })
    pure tt

  -- One task, its exceptions caught.
  unfoldable pub perform : DbTaskArgs → Exec Db (Unit {0})
  perform t = catch (perform_as t.type t) (pure tt)

  unfoldable pub work_on : Option (DbTaskArgs × List DbTaskArgs) → Exec (Work Db) (Unit {0})
  work_on none w = pure tt w
  work_on (some (t, queue)) w =
      let (r, db') = perform t w.db in (r, record { queue = queue; db = db' })

  -- One round of dbWork's loop: pop a task and perform it.
  unfoldable pub work_once : Exec (Work Db) (Unit {0})
  work_once w = work_on (pop w.queue) w

  -- So many rounds.
  unfoldable pub work : ℕ → Exec (Work Db) (Unit {0})
  work zero = pure tt
  work (suc rounds) = work_once >> work rounds
