-- ===== src/Model.antt =====
-- The data classes of include/server/model: user.hpp, groupuser.hpp, group.hpp, and the
-- arguments of a queued database task (include/server/redis/dbtask.hpp).
use my_chat_project.Prelude.{ℤ, minus_one, Str, codes, List, []}

pub record User : Type 0 where
  pub id : ℤ
  pub name : Str
  pub password : Str
  pub state : Str

abbrev pub online : Str
online = codes "Online"

abbrev pub offline : Str
offline = codes "Offline"

-- User(): the default arguments of the constructor.
abbrev pub default_user : User
default_user = record { id = minus_one; name = []; password = []; state = offline }

pub record GroupUser : Type 0 where
  pub user : User
  pub role : Str

pub record Group : Type 0 where
  pub id : ℤ
  pub name : Str
  pub desc : Str
  pub users : List GroupUser

pub data DbTaskType : Type 0 where
  db_task_update_user_state db_task_insert_offline_msg db_task_add_friend : DbTaskType
  db_task_create_group db_task_add_group_user : DbTaskType

pub record DbTaskArgs : Type 0 where
  pub type : DbTaskType
  pub userid : ℤ
  pub friendid : ℤ
  pub state : Str
  pub msg : Str
  pub toid : ℤ
  pub groupid : ℤ
  pub name : Str
  pub desc : Str
  pub role : Str

-- A task with the member initialisers of DbTaskArgs and a type.
abbrev pub new_task : DbTaskType → DbTaskArgs
new_task t = record {
  type = t;
  userid = minus_one;
  friendid = minus_one;
  state = [];
  msg = [];
  toid = minus_one;
  groupid = minus_one;
  name = [];
  desc = [];
  role = [];
}
