-- ===== src/Tests/Storage.antt =====
-- The database, redis and the worker at concrete inputs.
use my_chat_project.DbTask.Bounds.{AllFit, work-AllFit}
use my_chat_project.Db.FriendModel.{insert_sql, insert}
use my_chat_project.Prelude.{
  ap, zero, suc, digits, ℕ, ◌≡◌, ◌≢◌, refl, arith, pos, to_string, Str, codes, c_str, none, [], ◌∷◌,
  length,
}
use my_chat_project.Exec.{ok, undefined, for_each}
use my_chat_project.Model.{DbTaskArgs, new_task, db_task_insert_offline_msg}
use my_chat_project.Db.{connect, query}
use my_chat_project.Db.UserModel
use my_chat_project.Db.OfflineMsgModel
use my_chat_project.Db.Bounds.{insert-overflow}
use my_chat_project.Db.Queries.{Answers, IsText, user_row, query_user-user_row}
use my_chat_project.Redis
use my_chat_project.Redis.Flush.{Progress, send_command-ends}
use my_chat_project.DbTask
use my_chat_project.DbTask.Order.{push_all, work-push_all}
use my_chat_project.Tests.Toys.{mysql, redis, write_byte}
use my_chat_project.Tests.Server.{ann, new_friend}

redis-Progress : Progress redis
unfolding write_byte
redis-Progress zero e = cc
redis-Progress (suc n) e = omega arith

send_command-ends_example : (Redis.send_command redis (codes "SUBSCRIBE") (pos 2) 0).0 ≢ none
send_command-ends_example = send_command-ends redis (codes "SUBSCRIBE") (pos 2) 0 redis-Progress

abbrev stored_message : DbTaskArgs
stored_message = record (new_task db_task_insert_offline_msg) { toid = pos 2; msg = codes "hi" }

tasks-done : (for_each (stored_message ∷ new_friend ∷ []) (DbTask.perform mysql) []).0 ≡ ok tt
unfolding for_each DbTask.perform DbTask.perform_as OfflineMsgModel.insert
    OfflineMsgModel.insert_sql to_string digits c_str insert insert_sql
tasks-done = refl

work-push_all_example :
    DbTask.work mysql 2 (record {
      queue = push_all (new_friend ∷ []) (push_all (stored_message ∷ new_friend ∷ []) []);
      db = [];
    })
    ≡ (
      ok tt,
      record {
        queue = new_friend ∷ [];
        db = (for_each (stored_message ∷ new_friend ∷ []) (DbTask.perform mysql) []).1;
      },
    )
work-push_all_example =
    work-push_all mysql (stored_message ∷ new_friend ∷ []) (new_friend ∷ []) [] tasks-done

unfoldable many : ℕ → Str
many zero = []
many (suc n) = 120 ∷ many n

length-c_str-many : (n : ℕ) → length (c_str (many n)) ≡ n
unfolding c_str many
length-c_str-many zero = refl
length-c_str-many (suc n) = ap suc (length-c_str-many n)

insert-overflow_example : OfflineMsgModel.insert mysql (pos 2) (many 1000) [] ≡ (undefined, [])
insert-overflow_example =
    insert-overflow mysql (pos 2) (many 1000) [] (omega (arith, length-c_str-many 1000))

ann-IsText : IsText ann
unfolding c_str
ann-IsText = record { name_text = refl; password_text = refl; state_text = refl }

ann-Answers : Answers mysql (UserModel.query_sql (pos 2)) (user_row ann ∷ []) []
unfolding query connect UserModel.query_sql to_string digits
ann-Answers = record { connects = refl; answers = refl }

query_user-user_row_example : (UserModel.query_user mysql (pos 2) []).0 ≡ ok ann
query_user-user_row_example =
    query_user-user_row mysql ann [] [] (omega arith) ann-IsText ann-Answers

all-fit : AllFit (stored_message ∷ new_friend ∷ [])
unfolding c_str
all-fit = (
  record {
    userid_int = omega arith;
    friendid_int = omega arith;
    toid_int = omega arith;
    groupid_int = omega arith;
    state_short = omega arith;
    msg_short = omega arith;
    names_short = omega arith;
  },
  (
    record {
      userid_int = omega arith;
      friendid_int = omega arith;
      toid_int = omega arith;
      groupid_int = omega arith;
      state_short = omega arith;
      msg_short = omega arith;
      names_short = omega arith;
    },
    tt,
  ),
)

work-AllFit_example :
    DbTask.work mysql 2 (record {
      queue = push_all (new_friend ∷ []) (push_all (stored_message ∷ new_friend ∷ []) []);
      db = [];
    })
    ≡ (
      ok tt,
      record {
        queue = new_friend ∷ [];
        db = (for_each (stored_message ∷ new_friend ∷ []) (DbTask.perform mysql) []).1;
      },
    )
work-AllFit_example =
    work-AllFit mysql (stored_message ∷ new_friend ∷ []) (new_friend ∷ []) [] all-fit
