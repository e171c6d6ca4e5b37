-- ===== src/Db.antt =====
-- src/server/db/db.cpp and what the model classes share: a connection for each call, SQL text
-- formatted into a buffer of 1024 bytes, rows of nullable C strings.
pub mod UserModel
pub mod FriendModel
pub mod GroupModel
pub mod OfflineMsgModel
pub mod Bounds
pub mod Queries
use my_chat_project.Prelude.{
  ℕ, ◌<◌, Bool, true, false, Option, none, some, List, [], ◌∷◌, Str, codes, c_str, length, ltb,
  get_elem?, if◌then◌else◌,
}
use my_chat_project.Exec.{Exec, pure, crash, ◌>>=◌, ◌>>◌}
use my_chat_project.Externals.{MysqlLib, Row}

-- sizeof sql
abbrev pub sql_size : ℕ
sql_size = 1024

-- sprintf into `char sql[1024]`: the text and its NUL have to fit.
unfoldable pub sprintf : {S : Type 0} → Str → Exec S Str
sprintf text = if ltb (length text) sql_size then pure text else crash

-- A column of a row as a std::string.
unfoldable pub column : {S : Type 0} → ℕ → Row → Exec S Str
column i row = elim (get_elem? row i) [
  | none ↦ crash
  | some none ↦ crash
  | some (some s) ↦ pure (c_str s)
]

-- while ((row = mysql_fetch_row(res)) != nullptr) vec.push_back(read(row));
unfoldable pub fetch_rows : {S A : Type 0} → (Row → Exec S A) → List Row → Exec S (List A)
fetch_rows read [] = pure []
fetch_rows read (row ∷ rows) = do a ← read row; rest ← fetch_rows read rows; pure (a ∷ rest)

-- No result set: the vector stays empty.
unfoldable pub fetch_all : {S A : Type 0} → (Row → Exec S A) → Option (List Row) → Exec S (List A)
unfolding fetch_rows
fetch_all read none = pure []
fetch_all read (some rows) = fetch_rows read rows

module _ {Db : Type 0} (m : MysqlLib Db) where
  set_names : Bool → Db → Db
  set_names true db = (m.query (codes "set names gbk") db).1
  set_names false db = db

  -- MySQL::connect
  unfoldable pub connect : Exec Db Bool
  unfolding set_names
  connect db = let (up, db') = m.real_connect db in pure up (set_names up db')

  -- MySQL::update
  unfoldable pub update : Str → Exec Db Bool
  update sql db = let (done, db') = m.query sql db in pure done db'

  use_rows : Bool → Db → Option (List Row) × Db
  use_rows true db = m.use_result db
  use_rows false db = (none, db)

  -- MySQL::query
  unfoldable pub query : Str → Exec Db (Option (List Row))
  unfolding use_rows
  query sql db =
      let (done, db') = m.query sql db in let (rows, db'') = use_rows done db' in pure rows db''

  -- if (mysql.connect()) mysql.update(sql); and its result.
  unfoldable pub run_update : Str → Exec Db Bool
  unfolding connect update
  run_update sql = do up ← connect; if up then update sql else pure false
