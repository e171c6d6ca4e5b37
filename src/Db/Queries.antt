-- ===== src/Db/Queries.antt =====
-- What UserModel::query makes of the row of a user.
use my_chat_project.Prelude.{
  Bool, if◌then◌else◌, ◌∙◌, ltb, length, codes, ap, IsInt, arith, length-append,
  length-to_string-le, ◌+◌, ◌≡◌, true, some, List, [], ◌∷◌, ℤ, Str, c_str, to_string,
  atoi-to_string, c_str-to_string,
}
use my_chat_project.Exec.{Exec, pure, ok, ◌>>=◌}
use my_chat_project.Externals.{MysqlLib, Row}
use my_chat_project.Model.{User, default_user}
use my_chat_project.Db.{sprintf, column, connect, query}
use my_chat_project.Db.UserModel

-- The row of a user as the server sends it: the id in decimal, and texts without a NUL.
abbrev pub user_row : User → Row
user_row user =
    some (to_string user.id) ∷ some user.name ∷ some user.password ∷ some user.state ∷ []

pub record IsText (user : User) : Type 0 where
  pub name_text : c_str user.name ≡ user.name
  pub password_text : c_str user.password ≡ user.password
  pub state_text : c_str user.state ≡ user.state

-- The row of a user is read back as the user.
pub read_user-user_row :
    {S : Type 0} (user : User) (s : S)
    → IsText user
    → UserModel.read_user (user_row user) s ≡ (ok user, s)
unfolding UserModel.read_user column
read_user-user_row user s v =
    rw (c_str-to_string user.id, v.name_text, v.password_text, v.state_text, atoi-to_string user.id)

bind-ok :
    {S A B : Type 0} {a : A} (m : Exec S A) (f : A → Exec S B) (s : S)
    → (m s).0 ≡ ok a
    → (m >>= f) s ≡ f a (m s).1
bind-ok m f s e = rw e

length-query_sql : (id : ℤ) → length (UserModel.query_sql id) ≡ 30 + length (to_string id)
unfolding UserModel.query_sql
length-query_sql id = length-append (codes "select * from user where id = ") (to_string id)

-- What the database answers to a query: connected, and these rows.
pub record Answers {Db : Type 0} (m : MysqlLib Db) (sql : Str) (rows : List Row) (db : Db)
    : Type 0 where
  pub connects : (connect m db).0 ≡ ok true
  pub answers : (query m sql (connect m db).1).0 ≡ ok (some rows)

query_user-rows :
    {Db : Type 0} (m : MysqlLib Db) (id : ℤ) (rows : List Row) (db : Db)
    → ltb (length (UserModel.query_sql id)) 1024 ≡ true
    → Answers m (UserModel.query_sql id) rows db
    → UserModel.query_user m id db
      ≡ UserModel.first_user (some rows) (query m (UserModel.query_sql id) (connect m db).1).1
unfolding UserModel.query_user sprintf
query_user-rows m id rows db fits a =
    let then_query = λ (up : Bool).
      if up
      then (do res ← query m (UserModel.query_sql id); UserModel.first_user res)
      else pure default_user in
    rw fits (
      bind-ok (connect m) then_query db a.connects
      ∙ bind-ok (query m (UserModel.query_sql id)) UserModel.first_user (connect m db).1 a.answers)

query_sql-fits : (id : ℤ) → IsInt id → ltb (length (UserModel.query_sql id)) 1024 ≡ true
query_sql-fits id range = ground (arith, length-query_sql id, length-to_string-le id range)

-- UserModel::query returns the user whose row the database answers with first, id and texts
-- unchanged, where the id is an `int` and no text holds a NUL.
pub query_user-user_row :
    {Db : Type 0} (m : MysqlLib Db) (user : User) (rows : List Row) (db : Db)
    → IsInt user.id
    → IsText user
    → Answers m (UserModel.query_sql user.id) (user_row user ∷ rows) db
    → (UserModel.query_user m user.id db).0 ≡ ok user
unfolding UserModel.first_user
query_user-user_row m user rows db range v a =
    ap (λ r. r.0)
      (query_user-rows m user.id (user_row user ∷ rows) db (query_sql-fits user.id range) a
        ∙ read_user-user_row user (query m (UserModel.query_sql user.id) (connect m db).1).1 v)
