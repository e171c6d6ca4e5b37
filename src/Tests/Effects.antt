-- ===== src/Tests/Effects.antt =====
-- A closed connection of two users, and a group that is made, at concrete inputs.
use my_chat_project.Prelude.{
  eq_str, ℕ, ◌≡◌, ◌≢◌, refl, arith, ◌⊎◌, some, none, [], ◌∷◌, ℤ, pos, minus_one, to_int, c_str,
  codes, eq_int, Str,
}
use my_chat_project.Externals.{num, txt}
use my_chat_project.Db.{run_update}
use my_chat_project.Db.GroupModel
use my_chat_project.DbTask.{perform}
use my_chat_project.Service.{Server}
use my_chat_project.Service.Conns
use my_chat_project.Service.Account.{client_close_exception}
use my_chat_project.Service.Group.{create_group}
use my_chat_project.Service.Effects.Close.{closing_tasks, find-client_close_exception}
use my_chat_project.Service.Effects.CreateGroup.{creator_sql, group_task, create_group-creator}
use my_chat_project.Tests.Toys.{Fields, value_of, as_number, as_text, mysql, server_libraries}
use my_chat_project.Tests.Server.{start}

-- Users 2 and 3 are on connection 30.
abbrev shared_connection : Server Str ℕ ℕ
shared_connection = record start { conns = (pos 3, 30) ∷ (pos 2, 30) ∷ [] }

find-client_close_exception_example :
    ((Conns.find (pos 2) (client_close_exception server_libraries 30 shared_connection).1.conns
        ≡ none)
      × ((client_close_exception server_libraries 30 shared_connection).1.tasks
          ≡ closing_tasks server_libraries (some (pos 2))))
    ⊎ ((other : ℤ) × (other ≢ pos 2)
        × (Conns.find other shared_connection.conns ≡ some 30)
        × (Conns.find (pos 2) (client_close_exception server_libraries 30 shared_connection).1.conns
            ≡ some 30)
        × (Conns.find other (client_close_exception server_libraries 30 shared_connection).1.conns
            ≡ none)
        × ((client_close_exception server_libraries 30 shared_connection).1.tasks
            ≡ closing_tasks server_libraries (some other)))
unfolding Conns.find eq_int
find-client_close_exception_example =
    find-client_close_exception server_libraries 30 (pos 2) shared_connection
      ((λ e. cc, tt), (tt, tt)) refl

abbrev group_request : Fields
group_request =
    ("id", num (pos 2))
    ∷ ("groupname", txt (codes "club"))
    ∷ ("groupdesc", txt (codes "chess"))
    ∷ ("msgId", num (pos 8192))
    ∷ []

create_group-creator_example :
    ((create_group server_libraries 10 group_request start).1.db
      ≡ (run_update mysql (creator_sql server_libraries (to_int (pos 2))) start.db).1)
    × ((create_group server_libraries 10 group_request start).1.tasks
        ≡ group_task server_libraries (codes "club") (codes "chess") ∷ [])
    × ((perform mysql (group_task server_libraries (codes "club") (codes "chess")) (codes "")).1
        ≡ (run_update mysql
            (GroupModel.create_sql
              (record { id = minus_one; name = codes "club"; desc = codes "chess"; users = [] }))
            (codes "")).1)
unfolding value_of as_number as_text c_str eq_str
create_group-creator_example =
    create_group-creator server_libraries 10 group_request (pos 2) (pos 8192) (codes "club")
      (codes "chess") (4 ∷ []) (2 ∷ []) start (codes "") refl refl refl refl refl refl (omega arith)
