-- ===== src/Exec/Threads/Alone.antt =====
-- A thread that runs with no other in between does what the code does in one go.
use my_chat_project.Prelude.{◌≡◌, ◌∙◌, ap, refl, Bool, true, false, if◌then◌else◌}
use my_chat_project.Exec.{Exec, Outcome, ok, throws, undefined, continue}
use my_chat_project.Exec
use my_chat_project.Exec.Threads
use my_chat_project.Exec.Threads.{Thread, done, act, atomic, return, resume}

unfoldable pub alone : {S A : Type 0} → Thread S A → Exec S A
alone (done r) s = (r, s)
alone (act step rest) s = alone (rest s) (step s)

-- The thread is the code in steps.
pub record Runs {S A : Type 0} (t : Thread S A) (m : Exec S A) : Type 0 where
  pub at : (s : S) → alone t s ≡ m s

module _ {S A : Type 0} where
  pub Runs-atomic : (m : Exec S A) → Runs (atomic m) m
  unfolding alone
  Runs-atomic m = record { at = λ s. refl }

  pub Runs-return : (a : A) → Runs {S = S} (return a) (Exec.pure a)
  unfolding alone
  Runs-return a = record { at = λ s. refl }

  pub Runs-if :
      (b : Bool) (t u : Thread S A) (m n : Exec S A)
      → Runs t m
      → Runs u n
      → Runs (if b then t else u) (if b then m else n)
  Runs-if true t u m n h k = h
  Runs-if false t u m n h k = k

module _ {S A B : Type 0} where
  alone-resume :
      (r : Outcome A) (f : A → Thread S B) (s : S)
      → alone (resume r f) s ≡ continue r (λ a. alone (f a)) s
  unfolding alone
  alone-resume (ok a) f s = refl
  alone-resume (throws e) f s = refl
  alone-resume undefined f s = refl

  pub alone-bind :
      (t : Thread S A) (f : A → Thread S B) (s : S)
      → alone (Threads.◌>>=◌ t f) s ≡ Exec.◌>>=◌ (alone t) (λ a. alone (f a)) s
  unfolding alone
  alone-bind (done r) f s = alone-resume r f s
  alone-bind (act step rest) f s = alone-bind (rest s) f (step s)

  continue-same :
      (r : Outcome A) (f g : A → Exec S B) (s : S)
      → ((a : A) (s : S) → f a s ≡ g a s)
      → continue r f s ≡ continue r g s
  continue-same (ok a) f g s h = h a s
  continue-same (throws e) f g s h = refl
  continue-same undefined f g s h = refl

  pub Runs-bind :
      (t : Thread S A) (f : A → Thread S B) (m : Exec S A) (g : A → Exec S B)
      → Runs t m
      → ((a : A) → Runs (f a) (g a))
      → Runs (Threads.◌>>=◌ t f) (Exec.◌>>=◌ m g)
  Runs-bind t f m g h k = record {
    at = λ s.
        alone-bind t f s
        ∙ ap (λ r. continue r.0 (λ a. alone (f a)) r.1) (h.at s)
        ∙ continue-same (m s).0 (λ a. alone (f a)) g (m s).1 (λ a s. (k a).at s);
  }

pub ruleset runs_rules = (Runs-atomic, Runs-return, Runs-if, Runs-bind)
