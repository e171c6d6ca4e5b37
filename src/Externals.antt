-- ===== src/Externals.antt =====
-- What the program calls and does not implement, as records of functions: nlohmann::json
-- (thirdparty/json.hpp), the MySQL client library, hiredis and OpenSSL's EVP functions. Each is
-- a parameter of the model; what a theorem relies on is a hypothesis about these functions.
use my_chat_project.Prelude.{
  ℕ, ◌+◌, ◌/◌, ◌*◌, ◌≡◌, ℤ, Str, String, Bool, Option, some, List, ◌++◌, length, true, false, none,
  [], ◌∷◌, eq_str, codes, if◌then◌else◌,
}

-- A C++ value that the program assigns to a field of a json object.
pub data JsonValue : Type 0 where
  num : ℤ → JsonValue
  txt : Str → JsonValue
  txts : List Str → JsonValue

-- `object fs` is the json object after the assignments `js[k] = v` of `fs`, in order. A reader
-- gives `none` where `js[k].get<T>()` throws; `number` is the stored number, before the
-- conversion to `int` or `uint32_t`. `has js k` is `js.contains(k) && !js[k].is_null()`.
-- `dump` gives `none` where it throws (text that is no UTF-8), `parse` on a parse error.
pub record JsonLib (Json : Type 0) : Type 0 where
  pub object : List (String × JsonValue) → Json
  pub number : Json → String → Option ℤ
  pub text : Json → String → Option Str
  pub texts : Json → String → Option (List Str)
  pub has : Json → String → Bool
  pub dump : Json → Option Str
  pub parse : Str → Option Json

-- A later assignment takes the place of an earlier one.
unfoldable pub or_earlier : Option JsonValue → Option JsonValue → Option JsonValue
or_earlier none earlier = earlier
or_earlier (some v) earlier = some v

-- The value that a list of assignments leaves at a key.
unfoldable pub assigned : String → List (String × JsonValue) → Option JsonValue
unfolding or_earlier
assigned key [] = none
assigned key ((k, v) ∷ fields) =
    or_earlier (assigned key fields) (if eq_str (codes k) (codes key) then some v else none)

-- The documented behaviour of the json library that the program relies on: a field that has been
-- assigned is there and reads as the value, another is not, and a dumped object parses to itself.
pub record JsonLaws {Json : Type 0} (j : JsonLib Json) : Type 0 where
  pub number_of :
      (fields : List (String × JsonValue)) (key : String) (n : ℤ)
      → assigned key fields ≡ some (num n)
      → j.number (j.object fields) key ≡ some n
  pub text_of :
      (fields : List (String × JsonValue)) (key : String) (t : Str)
      → assigned key fields ≡ some (txt t)
      → j.text (j.object fields) key ≡ some t
  pub texts_of :
      (fields : List (String × JsonValue)) (key : String) (ts : List Str)
      → assigned key fields ≡ some (txts ts)
      → j.texts (j.object fields) key ≡ some ts
  pub has_of :
      (fields : List (String × JsonValue)) (key : String) (v : JsonValue)
      → assigned key fields ≡ some v
      → j.has (j.object fields) key ≡ true
  pub has_none :
      (fields : List (String × JsonValue)) (key : String)
      → assigned key fields ≡ none
      → j.has (j.object fields) key ≡ false
  pub parse_dump : (js : Json) (text : Str) → j.dump js ≡ some text → j.parse text ≡ some js

-- A row of a result set; `none` is the null pointer of an SQL NULL.
abbrev pub Row : Type 0
Row = List (Option Str)

-- libmysqlclient, over a state that holds the server's tables and the open connection.
-- `real_connect` is mysql_real_connect on a handle of mysql_init; `query` is mysql_query, true
-- where it returns 0; `use_result` is mysql_use_result with the rows that fetching it gives;
-- `insert_id` is mysql_insert_id.
pub record MysqlLib (Db : Type 0) : Type 0 where
  pub real_connect : Db → Bool × Db
  pub query : Str → Db → Bool × Db
  pub use_result : Db → Option (List Row) × Db
  pub insert_id : Db → ℤ

pub data ReplyType : Type 0 where
  reply_string reply_status reply_integer reply_other : ReplyType

pub record Reply : Type 0 where
  pub type : ReplyType
  pub str : Str
  pub integer : ℤ

-- hiredis, over a state that holds both contexts and the redis server. `connect_context` is
-- redisConnect, true where it returns a context, as it does with an error too; `command` is
-- redisCommand on the publish context with the arguments of the format, `none` for a null reply;
-- `append_command` is redisAppendCommand on the subscribe context, false for REDIS_ERR;
-- `buffer_write` is redisBufferWrite, `none` for REDIS_ERR and otherwise the value of `done`;
-- `pending` is the number of bytes in the subscribe context's output buffer. `get_reply` is
-- redisGetReply on that context, `none` unless it returns REDIS_OK, and otherwise the reply, `none`
-- for a null pointer: the text of its element 1, and that of its element 2 where it has one.
pub record RedisLib (Rs : Type 0) : Type 0 where
  pub connect_context : Rs → Bool × Rs
  pub command : List Str → Rs → Option Reply × Rs
  pub append_command : List Str → Rs → Bool × Rs
  pub buffer_write : Rs → Option Bool × Rs
  pub pending : Rs → ℕ
  pub get_reply : Rs → Option (Option (Str × Option Str)) × Rs

-- OpenSSL with the cipher EVP_aes_256_cbc(). `G` is the library's state, the random numbers
-- included; `Ctx` is an EVP_CIPHER_CTX. `none` is a return value other than 1, or a null pointer.
pub record EvpLib (G Ctx : Type 0) : Type 0 where
  pub ctx_new : G → Option Ctx × G
  pub rand_bytes : ℕ → G → Option Str × G
  pub iv_length : ℕ
  pub encrypt_init : Ctx → Str → Str → Option Ctx
  pub encrypt_update : Ctx → Str → Option (Str × Ctx)
  pub encrypt_final : Ctx → Option Str
  pub decrypt_init : Ctx → Str → Str → Option Ctx
  pub decrypt_update : Ctx → Str → Option (Str × Ctx)
  pub decrypt_final : Ctx → Option Str

-- The documented behaviour of the EVP functions that the program relies on: what is encrypted
-- under a key and an IV decrypts under the same, in one update and one final call, to the same
-- bytes, whatever context is used; there is at least one block; RAND_bytes fills its buffer.
pub record EvpLaws {G Ctx : Type 0} (e : EvpLib G Ctx) : Type 0 where
  pub inverse :
      (c c1 c2 d : Ctx) (key iv plain o1 o2 : Str)
      → e.encrypt_init c key iv ≡ some c1
      → e.encrypt_update c1 plain ≡ some (o1, c2)
      → e.encrypt_final c2 ≡ some o2
      → (d1 d2 : Ctx) × (p1 p2 : Str) × (e.decrypt_init d key iv ≡ some d1)
        × (e.decrypt_update d1 (o1 ++ o2) ≡ some (p1, d2))
        × (e.decrypt_final d2 ≡ some p2)
        × (p1 ++ p2 ≡ plain)
  pub block :
      (c c1 c2 : Ctx) (key iv plain o1 o2 : Str)
      → e.encrypt_init c key iv ≡ some c1
      → e.encrypt_update c1 plain ≡ some (o1, c2)
      → e.encrypt_final c2 ≡ some o2
      → length o1 + length o2 ≡ (length plain / 16 + 1) * 16
  pub filled : (n : ℕ) (g : G) (bytes : Str) → (e.rand_bytes n g).0 ≡ some bytes → length bytes ≡ n
  pub iv_is_block : e.iv_length ≡ 16

-- All of them, for the code that uses several.
pub record Externals (Json Db Rs G Ctx : Type 0) : Type 0 where
  pub json : JsonLib Json
  pub mysql : MysqlLib Db
  pub redis : RedisLib Rs
  pub evp : EvpLib G Ctx

-- The client's socket: socket(2) and connect(2) to an address and a port, true unless they return -1;
-- send(2) on a blocking socket, `none` for -1 and otherwise the number of bytes that were taken.
pub record SocketLib (K : Type 0) : Type 0 where
  pub open_socket : K → Bool × K
  pub connect_to : Str → ℕ → K → Bool × K
  pub send_bytes : Str → K → Option ℕ × K

-- SQLite, over a state that holds the database file: sqlite3_open and sqlite3_exec, true for
-- SQLITE_OK.
pub record SqliteLib (Q : Type 0) : Type 0 where
  pub open_file : Q → Bool × Q
  pub exec_sql : Str → Q → Bool × Q

-- What the client uses.
pub record ClientExternals (Json G Ctx K Q : Type 0) : Type 0 where
  pub json : JsonLib Json
  pub evp : EvpLib G Ctx
  pub socket : SocketLib K
  pub sqlite : SqliteLib Q
