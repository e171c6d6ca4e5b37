-- ===== src/Exec/Keeps.antt =====
-- Invariants of actions, one rule for each way to build an action.
use my_chat_project.Prelude.{Bool, true, false, if◌then◌else◌, Option, none, some, List, [], ◌∷◌}
use my_chat_project.Exec.{
  Exec, Exception, Outcome, ok, throws, undefined, pure, throw, crash, gets, or_throw, handle,
  catch, modify, continue, ◌>>=◌, zoom, for_each,
}

-- `m` keeps `P`, whatever its outcome.
pub record Keeps {S A : Type 0} (P : S → Type 0) (m : Exec S A) : Type 0 where
  pub at : (s : S) → P s → P (m s).1

module _ {S A : Type 0} {P : S → Type 0} where
  pub Keeps-pure : (a : A) → Keeps P (pure a)
  Keeps-pure a = record { at = λ s h. h }

  pub Keeps-throw : (e : Exception) → Keeps P (throw {A = A} e)
  Keeps-throw e = record { at = λ s h. h }

  pub Keeps-crash : Keeps P (crash {A = A})
  Keeps-crash = record { at = λ s h. h }

  pub Keeps-gets : (f : S → A) → Keeps P (gets f)
  Keeps-gets f = record { at = λ s h. h }

  pub Keeps-or_throw : (o : Option A) (e : Exception) → Keeps P (or_throw o e)
  Keeps-or_throw none e = record { at = λ s h. h }
  Keeps-or_throw (some a) e = record { at = λ s h. h }

  pub Keeps-if : (b : Bool) (m n : Exec S A) → Keeps P m → Keeps P n → Keeps P (if b then m else n)
  Keeps-if true m n km kn = km
  Keeps-if false m n km kn = kn

  handle-Keeps : (r : Outcome A) (n : Exec S A) (s : S) → Keeps P n → P s → P (handle r n s).1
  handle-Keeps (ok a) n s kn h = h
  handle-Keeps (throws e) n s kn h = kn.at s h
  handle-Keeps undefined n s kn h = h

  pub Keeps-catch : (m n : Exec S A) → Keeps P m → Keeps P n → Keeps P (catch m n)
  Keeps-catch m n km kn = record {
    at = λ s h. let (r, s') = m s in handle-Keeps r n s' kn (km.at s h);
  }

pub Keeps-modify :
    {S : Type 0} {P : S → Type 0} (f : S → S) → ((s : S) → P s → P (f s)) → Keeps P (modify f)
Keeps-modify f k = record { at = k }

module _ {S A B : Type 0} {P : S → Type 0} where
  continue-Keeps :
      (r : Outcome A) (f : A → Exec S B) (s : S)
      → ((a : A) → Keeps P (f a))
      → P s
      → P (continue r f s).1
  continue-Keeps (ok a) f s kf h = (kf a).at s h
  continue-Keeps (throws e) f s kf h = h
  continue-Keeps undefined f s kf h = h

  pub Keeps-bind :
      (m : Exec S A) (f : A → Exec S B) → Keeps P m → ((a : A) → Keeps P (f a)) → Keeps P (m >>= f)
  Keeps-bind m f km kf = record {
    at = λ s h. let (r, s') = m s in continue-Keeps r f s' kf (km.at s h);
  }

pub Keeps-zoom :
    {S T A : Type 0} {P : S → Type 0} (get : S → T) (put : T → S → S) (m : Exec T A)
    → ((t : T) (s : S) → P s → P (put t s))
    → Keeps P (zoom get put m)
Keeps-zoom get put m k = record { at = λ s h. k (m (get s)).1 s h }

pub Keeps-for_each :
    {S A : Type 0} {P : S → Type 0} (xs : List A) (body : A → Exec S (Unit {0}))
    → ((a : A) → Keeps P (body a))
    → Keeps P (for_each xs body)
unfolding for_each
Keeps-for_each [] body k = Keeps-pure tt
Keeps-for_each (x ∷ xs) body k = Keeps-bind (body x) _ (k x) (λ _. Keeps-for_each xs body k)

pub ruleset keeps_rules = (
  Keeps-pure, Keeps-throw, Keeps-crash, Keeps-gets, Keeps-or_throw, Keeps-if, Keeps-catch,
  Keeps-bind, Keeps-for_each,
)
