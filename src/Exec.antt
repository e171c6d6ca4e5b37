-- ===== src/Exec.antt =====
-- Code with a state that may throw. What was written before a throw stays written, so the state
-- comes back beside every outcome. `undefined` is undefined behaviour: a write past a buffer, a
-- null pointer read.
pub mod Keeps
pub mod Threads
use my_chat_project.Prelude.{Option, none, some, List, [], ◌∷◌}

pub data Exception : Type 0 where
  json_exception runtime_error : Exception

pub data Outcome {ℓ} (A : Type ℓ) : Type ℓ where
  ok : A → Outcome A
  throws : Exception → Outcome A
  undefined : Outcome A

abbrev pub Exec : Type 0 → Type 0 → Type 0
Exec S A = S → Outcome A × S

module _ {S A : Type 0} where
  abbrev pub pure : A → Exec S A
  pure a s = (ok a, s)

  abbrev pub throw : Exception → Exec S A
  throw e s = (throws e, s)

  abbrev pub crash : Exec S A
  crash s = (undefined, s)

  abbrev pub gets : (S → A) → Exec S A
  gets f s = (ok (f s), s)

  -- A value of a library call that throws where it has none.
  abbrev pub or_throw : Option A → Exception → Exec S A
  or_throw none e s = (throws e, s)
  or_throw (some a) e s = (ok a, s)

  -- try { m } catch (const std::exception &) { handler }
  abbrev pub handle : Outcome A → Exec S A → Exec S A
  handle (throws e) handler s = handler s
  handle (ok a) handler s = (ok a, s)
  handle undefined handler s = (undefined, s)

  abbrev pub catch : Exec S A → Exec S A → Exec S A
  catch m handler s = let (r, s') = m s in handle r handler s'

abbrev pub modify : {S : Type 0} → (S → S) → Exec S (Unit {0})
modify f s = (ok tt, f s)

module _ {S A B : Type 0} where
  abbrev pub continue : Outcome A → (A → Exec S B) → Exec S B
  continue (ok a) f s = f a s
  continue (throws e) f s = (throws e, s)
  continue undefined f s = (undefined, s)

  infixl 10 ◌>>=◌ ◌>>◌
  abbrev pub ◌>>=◌ : Exec S A → (A → Exec S B) → Exec S B
  ◌>>=◌ m f s = let (r, s') = m s in continue r f s'

  abbrev pub ◌>>◌ : Exec S A → Exec S B → Exec S B
  m >> n = m >>= λ _. n

-- Code over a part of the state.
abbrev pub zoom : {S T A : Type 0} → (S → T) → (T → S → S) → Exec T A → Exec S A
zoom get put m s = let (r, t) = m (get s) in (r, put t s)

-- for (a : xs) body(a);
unfoldable pub for_each : {S A : Type 0} → List A → (A → Exec S (Unit {0})) → Exec S (Unit {0})
for_each [] body = pure tt
for_each (x ∷ xs) body = body x >> for_each xs body
