-- ===== src/Tests/Toys.antt =====
-- Small libraries to run the program with: json objects as their fields, a cipher that puts the
-- padding in front of the text, a database that answers by the query's column list.
use my_chat_project.Prelude.{
  ltb, sym, ◌∙◌, ℕ, zero, suc, ◌+◌, ◌-◌, ◌%◌, ◌≡◌, refl, arith, Option, none, some, Bool, true,
  false, List, [], ◌∷◌, ◌++◌, ap, ℤ, pos, Str, String, codes, eq_str, length, length-append, drop,
  drop-append_length, append-nil, get_or, if◌then◌else◌, ◌==◌,
}
use my_chat_project.Externals.{
  JsonValue, num, txt, txts, JsonLib, Row, MysqlLib, RedisLib, EvpLib, EvpLaws, Externals,
  SocketLib, SqliteLib, ClientExternals,
}

abbrev pub Fields : Type 0
Fields = List (String × JsonValue)

unfoldable pub value_of : Fields → String → Option JsonValue
value_of [] key = none
value_of ((k, v) ∷ fields) key =
    let rest = value_of fields key in if eq_str (codes k) (codes key) then some v else rest

unfoldable pub as_number : Option JsonValue → Option ℤ
as_number (some (num n)) = some n
as_number _ = none

unfoldable pub as_text : Option JsonValue → Option Str
as_text (some (txt t)) = some t
as_text _ = none

unfoldable pub as_texts : Option JsonValue → Option (List Str)
as_texts (some (txts t)) = some t
as_texts _ = none

unfoldable pub is_there : Option JsonValue → Bool
is_there none = false
is_there (some v) = true

-- A text is dumped as its number of fields; a byte is parsed as an object with that message type.
abbrev pub json : JsonLib Fields
json = record {
  object = λ fields. fields;
  number = λ js key. as_number (value_of js key);
  text = λ js key. as_text (value_of js key);
  texts = λ js key. as_texts (value_of js key);
  has = λ js key. is_there (value_of js key);
  dump = λ js. some (length js ∷ []);
  parse = λ text.
      some (
        ("msgid", num (pos (get_or text 0 0))) ∷ ("id", num (pos 1)) ∷ ("msgId", num (pos 7)) ∷ []);
}

-- The state is the last query. Whole rows are user 2's, lists of ids are 2 and 3.
abbrev pub ann_row : Row
ann_row = some (codes "2") ∷ some (codes "ann") ∷ some (codes "pw") ∷ some (codes "Offline") ∷ []

abbrev pub mysql : MysqlLib Str
mysql = record {
  real_connect = λ db. (true, db);
  query = λ sql db. (true, sql);
  use_result = λ sql. (
    if get_or sql 7 0 == 42
        then some (ann_row ∷ [])
        else some ((some (codes "2") ∷ []) ∷ (some (codes "3") ∷ []) ∷ []),
    sql,
  );
  insert_id = λ db. pos 5;
}

-- The state is the number of bytes to write; each round writes one.
unfoldable pub write_byte : ℕ → Option Bool × ℕ
write_byte zero = (some true, 0)
write_byte (suc n) = (some false, n)

abbrev pub redis : RedisLib ℕ
redis = record {
  connect_context = λ s. (true, s);
  command = λ args s. (none, s);
  append_command = λ args s. (true, s + 9);
  buffer_write = write_byte;
  pending = λ s. s;
  get_reply = λ s. (some (some (codes "2", some (6 ∷ []))), s);
}

unfoldable pub zeros : ℕ → Str
zeros zero = []
zeros (suc n) = 0 ∷ zeros n

pub length-zeros : (n : ℕ) → length (zeros n) ≡ n
unfolding zeros
length-zeros zero = refl
length-zeros (suc n) = ap suc (length-zeros n)

-- The number of padding bytes that follow the first.
abbrev pub more_padding : Str → ℕ
more_padding plain = 15 - length plain % 16

unfoldable pub strip : Str → Str
strip [] = []
strip (b ∷ rest) = drop b rest

abbrev pub evp : EvpLib ℕ (Unit {0})
evp = record {
  ctx_new = λ g. (some tt, g);
  rand_bytes = λ n g. (some (zeros n), g + 1);
  iv_length = 16;
  encrypt_init = λ c key iv. some tt;
  encrypt_update = λ c plain. some (more_padding plain ∷ (zeros (more_padding plain) ++ plain), tt);
  encrypt_final = λ c. some [];
  decrypt_init = λ c key iv. some tt;
  decrypt_update = λ c sealed. some (strip sealed, tt);
  decrypt_final = λ c. some [];
}

some-pair :
    {A B : Type 0} {a b : A} {c d : B}
    → ◌≡◌ {A = Option (A × B)} (some (a, c)) (some (b, d))
    → a ≡ b
some-pair e = cc

pub some-injective : {A : Type 0} {a b : A} → some a ≡ some b → a ≡ b
some-injective e = cc

sealed-text :
    (plain o1 o2 : Str)
    → ◌≡◌ {A = Option (Str × Unit {0})}
        (some (more_padding plain ∷ (zeros (more_padding plain) ++ plain), tt))
        (some (o1, tt))
    → ◌≡◌ {A = Option Str} (some []) (some o2)
    → o1 ++ o2 ≡ more_padding plain ∷ (zeros (more_padding plain) ++ plain)
sealed-text plain o1 o2 e f =
    ap (λ o. o1 ++ o) (sym (some-injective f)) ∙ append-nil o1 ∙ sym (some-pair e)

strip-sealed :
    (plain sealed : Str)
    → sealed ≡ more_padding plain ∷ (zeros (more_padding plain) ++ plain)
    → strip sealed ++ [] ≡ plain
unfolding strip
strip-sealed plain sealed e =
    append-nil (strip sealed)
    ∙ ap strip e
    ∙ drop-append_length (more_padding plain) (zeros (more_padding plain)) plain
        (length-zeros (more_padding plain))

pub evp-EvpLaws : EvpLaws evp
evp-EvpLaws = record {
  inverse = λ c c1 c2 d key iv plain o1 o2 i u f. (
    tt,
    tt,
    strip (o1 ++ o2),
    [],
    refl,
    refl,
    refl,
    strip-sealed plain (o1 ++ o2) (sealed-text plain o1 o2 u f),
  );
  block = λ c c1 c2 key iv plain o1 o2 i u f. omega (
    arith,
    ap length (some-pair u),
    ap length (some-injective f),
    length-append (zeros (more_padding plain)) plain,
    length-zeros (more_padding plain),
  );
  filled = λ n g bytes e. ap length (sym (some-injective e)) ∙ length-zeros n;
  iv_is_block = refl;
}

abbrev pub server_libraries : Externals Fields Str ℕ ℕ (Unit {0})
server_libraries = record { json = json; mysql = mysql; redis = redis; evp = evp }

-- A socket that takes up to ten bytes at a time, and counts the calls.
unfoldable pub take_ten : Str → ℕ → Option ℕ × ℕ
take_ten bytes k = (some (if ltb (length bytes) 10 then length bytes else 10), k + 1)

abbrev pub socket : SocketLib ℕ
socket = record {
  open_socket = λ k. (true, k);
  connect_to = λ ip port k. (true, k);
  send_bytes = take_ten;
}

abbrev pub sqlite : SqliteLib ℕ
sqlite = record { open_file = λ q. (true, q); exec_sql = λ sql q. (true, q + 1) }

abbrev pub client_libraries : ClientExternals Fields ℕ (Unit {0}) ℕ ℕ
client_libraries = record { json = json; evp = evp; socket = socket; sqlite = sqlite }
