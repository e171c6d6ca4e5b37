-- ===== src/Db/Bounds.antt =====
-- Which offline messages fit the buffer of 1024 bytes that the SQL text is formatted into.
use my_chat_project.Prelude.{
  inl, inr, Bool-cases, Bool, Bool-cases, length-to_string-pos, ◌+◌, ◌≤◌, ◌≡◌, true, false, arith,
  refl, ℤ, IsInt, Str, codes, c_str, to_string, length, length-append, length-to_string-le, ltb,
  ◌++◌,
}
use my_chat_project.Exec.{ok, undefined}
use my_chat_project.Externals.{MysqlLib}
use my_chat_project.Db.{Bool, sprintf, run_update, connect, update}
use my_chat_project.Db.OfflineMsgModel

length-insert_sql :
    (id : ℤ) (msg : Str)
    → length (OfflineMsgModel.insert_sql id msg) ≡ 39 + length (to_string id) + length (c_str msg)
unfolding OfflineMsgModel.insert_sql
length-insert_sql id msg = omega (
  arith,
  length-append (codes "insert into offlinemessage values(")
      (to_string id ++ (codes ", '" ++ (c_str msg ++ codes "')"))),
  length-append (to_string id) (codes ", '" ++ (c_str msg ++ codes "')")),
  length-append (codes ", '") (c_str msg ++ codes "')"),
  length-append (c_str msg) (codes "')"),
)

length-remove_sql : (id : ℤ) → length (OfflineMsgModel.remove_sql id) ≡ 42 + length (to_string id)
unfolding OfflineMsgModel.remove_sql
length-remove_sql id =
    omega (arith, length-append (codes "delete from offlinemessage where userid = ") (to_string id))

module _ {Db : Type 0} (m : MysqlLib Db) where
  pub run_update-ok : (sql : Str) (db : Db) → (b : Bool) × ((run_update m sql db).0 ≡ ok b)
  unfolding run_update connect update
  run_update-ok sql db = elim (Bool-cases (m.real_connect db).0) [
    | inl up ↦ rw (up, run_update, connect) (_, refl)
    | inr down ↦ rw (down, run_update, connect) (_, refl)
  ]

  -- Storing an offline message that takes at most 973 bytes up to its first NUL goes well, whatever
  -- the database answers.
  pub insert-short :
      (id : ℤ) (msg : Str) (db : Db)
      → IsInt id
      → length (c_str msg) ≤ 973
      → (OfflineMsgModel.insert m id msg db).0 ≡ ok tt
  unfolding OfflineMsgModel.insert sprintf
  insert-short id msg db range short =
      let fits : ltb (length (OfflineMsgModel.insert_sql id msg)) 1024 ≡ true =
        ground (arith, length-insert_sql id msg, length-to_string-le id range) in
      let done = run_update-ok (OfflineMsgModel.insert_sql id msg) db in
      rw (fits, done.1, OfflineMsgModel.insert, sprintf)

  -- Storing one that takes 984 bytes or more up to its first NUL writes past the buffer, before
  -- anything is asked of the database.
  pub insert-overflow :
      (id : ℤ) (msg : Str) (db : Db)
      → 984 ≤ length (c_str msg)
      → OfflineMsgModel.insert m id msg db ≡ (undefined, db)
  unfolding OfflineMsgModel.insert sprintf
  insert-overflow id msg db long =
      let over : ltb (length (OfflineMsgModel.insert_sql id msg)) 1024 ≡ false =
        ground (arith, length-insert_sql id msg, length-to_string-pos id) in
      rw (over, OfflineMsgModel.insert, sprintf)

  -- Deleting a user's messages goes well.
  pub remove-ok : (id : ℤ) (db : Db) → IsInt id → (OfflineMsgModel.remove m id db).0 ≡ ok tt
  unfolding OfflineMsgModel.remove sprintf
  remove-ok id db range =
      let fits : ltb (length (OfflineMsgModel.remove_sql id)) 1024 ≡ true =
        ground (arith, length-remove_sql id, length-to_string-le id range) in
      let done = run_update-ok (OfflineMsgModel.remove_sql id) db in
      rw (fits, done.1, OfflineMsgModel.remove, sprintf)

  -- The same, with the statement that each runs.
  pub insert-run_update :
      (id : ℤ) (msg : Str) (db : Db)
      → IsInt id
      → length (c_str msg) ≤ 973
      → OfflineMsgModel.insert m id msg db
        ≡ (ok tt, (run_update m (OfflineMsgModel.insert_sql id msg) db).1)
  unfolding OfflineMsgModel.insert sprintf
  insert-run_update id msg db range short =
      let fits : ltb (length (OfflineMsgModel.insert_sql id msg)) 1024 ≡ true =
        ground (arith, length-insert_sql id msg, length-to_string-le id range) in
      let done = run_update-ok (OfflineMsgModel.insert_sql id msg) db in
      rw (fits, done.1, OfflineMsgModel.insert, sprintf) refl

  pub remove-run_update :
      (id : ℤ) (db : Db)
      → IsInt id
      → OfflineMsgModel.remove m id db
        ≡ (ok tt, (run_update m (OfflineMsgModel.remove_sql id) db).1)
  unfolding OfflineMsgModel.remove sprintf
  remove-run_update id db range =
      let fits : ltb (length (OfflineMsgModel.remove_sql id)) 1024 ≡ true =
        ground (arith, length-remove_sql id, length-to_string-le id range) in
      let done = run_update-ok (OfflineMsgModel.remove_sql id) db in
      rw (fits, done.1, OfflineMsgModel.remove, sprintf) refl
