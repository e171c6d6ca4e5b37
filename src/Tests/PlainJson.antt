-- ===== src/Tests/PlainJson.antt =====
-- A small json library that dumps every object and parses it back: a dump is a program for a machine
-- that builds the object, two numbers to an instruction, its texts spelled out from the back.
use my_chat_project.Prelude.{
  zero, suc, ◌++◌, append-nil, ℕ, ◌≡◌, refl, sym, ap, ◌∙◌, Option, none, some, List, [], ◌∷◌, pos,
  negsuc, Str, String, codes, eq_str, if◌then◌else◌,
}
use my_chat_project.Externals.{
  JsonValue, num, txt, txts, JsonLib, JsonLaws, assigned, or_earlier, Externals, ClientExternals,
}
use my_chat_project.Tests.Toys.{
  mysql, redis, evp, socket, sqlite, as_number, as_text, as_texts, is_there, some-injective,
}

-- An object is its assignments.
abbrev pub Object : Type 0
Object = List (Str × JsonValue)

abbrev pub assign_all : List (String × JsonValue) → Object
assign_all [] = []
assign_all ((k, v) ∷ fields) = (codes k, v) ∷ assign_all fields

unfoldable pub value_at : String → Object → Option JsonValue
unfolding or_earlier
value_at key [] = none
value_at key ((k, v) ∷ fields) =
    or_earlier (value_at key fields) (if eq_str k (codes key) then some v else none)

value_at-assign_all :
    (key : String) (fields : List (String × JsonValue))
    → value_at key (assign_all fields) ≡ assigned key fields
unfolding value_at assigned
value_at-assign_all key [] = refl
value_at-assign_all key ((k, v) ∷ fields) = rw (value_at-assign_all key fields) refl

-- The machine: a text, a list of texts, a key and an object.
pub record Machine : Type 0 where
  pub text : Str
  pub texts : List Str
  pub key : Str
  pub object : Object

unfoldable pub instruction : ℕ → ℕ → Machine → Machine
instruction zero n s = record s { text = n ∷ s.text }
instruction (suc zero) n s = record s { texts = s.text ∷ s.texts; text = [] }
instruction (suc (suc zero)) n s = record s { key = s.text; text = [] }
instruction (suc (suc (suc zero))) n s = record s { object = (s.key, num (pos n)) ∷ s.object }
instruction (suc (suc (suc (suc zero)))) n s = record s {
  object = (s.key, num (negsuc n)) ∷ s.object;
}
instruction (suc (suc (suc (suc (suc zero))))) n s = record s {
  object = (s.key, txt s.text) ∷ s.object;
  text = [];
}
instruction (suc (suc (suc (suc (suc (suc m)))))) n s = record s {
  object = (s.key, txts s.texts) ∷ s.object;
  texts = [];
}

unfoldable pub execute : Str → Machine → Machine
unfolding instruction
execute (op ∷ n ∷ code) s = execute code (instruction op n s)
execute _ s = s

unfoldable pub code_of_text : Str → Str → Str
code_of_text [] code = code
code_of_text (b ∷ t) code = code_of_text t (0 ∷ b ∷ code)

unfoldable pub code_of_texts : List Str → Str → Str
unfolding code_of_text
code_of_texts [] code = code
code_of_texts (t ∷ ts) code = code_of_texts ts (code_of_text t (1 ∷ 0 ∷ code))

unfoldable pub code_of_value : JsonValue → Str → Str
unfolding code_of_text code_of_texts
code_of_value (num (pos n)) code = 3 ∷ n ∷ code
code_of_value (num (negsuc n)) code = 4 ∷ n ∷ code
code_of_value (txt t) code = code_of_text t (5 ∷ 0 ∷ code)
code_of_value (txts ts) code = code_of_texts ts (6 ∷ 0 ∷ code)

unfoldable pub code_of_object : Object → Str → Str
unfolding code_of_text code_of_value
code_of_object [] code = code
code_of_object ((k, v) ∷ fields) code =
    code_of_object fields (code_of_text k (2 ∷ 0 ∷ code_of_value v code))

abbrev pub start : Machine
start = record { text = []; texts = []; key = []; object = [] }

execute-text :
    (t code : Str) (ts : List Str) (k : Str) (o : Object)
    → execute (code_of_text t code) (record { text = []; texts = ts; key = k; object = o })
      ≡ execute code (record { text = t; texts = ts; key = k; object = o })
unfolding code_of_text execute instruction
execute-text [] code ts k o = refl
execute-text (b ∷ t) code ts k o = execute-text t (0 ∷ b ∷ code) ts k o

execute-texts :
    (ts : List Str) (code k : Str) (o : Object)
    → execute (code_of_texts ts code) (record { text = []; texts = []; key = k; object = o })
      ≡ execute code (record { text = []; texts = ts; key = k; object = o })
unfolding code_of_texts execute instruction
execute-texts [] code k o = refl
execute-texts (t ∷ ts) code k o =
    execute-texts ts (code_of_text t (1 ∷ 0 ∷ code)) k o ∙ execute-text t (1 ∷ 0 ∷ code) ts k o

execute-value :
    (v : JsonValue) (code k : Str) (o : Object)
    → execute (code_of_value v code) (record { text = []; texts = []; key = k; object = o })
      ≡ execute code (record { text = []; texts = []; key = k; object = (k, v) ∷ o })
unfolding code_of_value execute instruction
execute-value (num (pos n)) code k o = refl
execute-value (num (negsuc n)) code k o = refl
execute-value (txt t) code k o = execute-text t (5 ∷ 0 ∷ code) [] k o
execute-value (txts ts) code k o = execute-texts ts (6 ∷ 0 ∷ code) k o

execute-object :
    (fields : Object) (code : Str) (o : Object)
    → (k : Str)
    → (k' : Str) × (execute
          (code_of_object fields code)
          (record { text = []; texts = []; key = k; object = o })
        ≡ execute code (record { text = []; texts = []; key = k'; object = fields ++ o }))
unfolding code_of_object execute instruction
execute-object [] code o k = (k, refl)
execute-object ((k0, v) ∷ fields) code o k =
    let (k', e) = execute-object fields (code_of_text k0 (2 ∷ 0 ∷ code_of_value v code)) o k in
    (
      k0,
      e
          ∙ execute-text k0 (2 ∷ 0 ∷ code_of_value v code) [] k' (fields ++ o)
          ∙ execute-value v code k0 (fields ++ o),
    )

abbrev pub dump : Object → Str
dump object = code_of_object object []

abbrev pub parse : Str → Object
parse text = (execute text start).object

parse-dump : (object : Object) → parse (dump object) ≡ object
unfolding execute
parse-dump object =
    ap (λ (s : Machine). s.object) (execute-object object [] [] []).1 ∙ append-nil object

abbrev pub plain_json : JsonLib Object
plain_json = record {
  object = assign_all;
  number = λ js key. as_number (value_at key js);
  text = λ js key. as_text (value_at key js);
  texts = λ js key. as_texts (value_at key js);
  has = λ js key. is_there (value_at key js);
  dump = λ js. some (dump js);
  parse = λ text. some (parse text);
}

pub plain_json-JsonLaws : JsonLaws plain_json
unfolding as_number as_text as_texts is_there
plain_json-JsonLaws = record {
  number_of = λ fields key n e. rw (value_at-assign_all key fields, e) refl;
  text_of = λ fields key t e. rw (value_at-assign_all key fields, e) refl;
  texts_of = λ fields key ts e. rw (value_at-assign_all key fields, e) refl;
  has_of = λ fields key v e. rw (value_at-assign_all key fields, e) refl;
  has_none = λ fields key e. rw (value_at-assign_all key fields, e) refl;
  parse_dump =
      λ js text e. ap (λ t. some (parse t)) (some-injective (sym e)) ∙ ap some (parse-dump js);
}

abbrev pub plain_server : Externals Object Str ℕ ℕ (Unit {0})
plain_server = record { json = plain_json; mysql = mysql; redis = redis; evp = evp }

abbrev pub plain_client : ClientExternals Object ℕ (Unit {0}) ℕ ℕ
plain_client = record { json = plain_json; evp = evp; socket = socket; sqlite = sqlite }
