-- ===== src/Exec/Threads.antt =====
-- Code in steps, so that other threads may come in between. A step changes the shared state, and
-- what follows it depends on the state that it found.
pub mod Alone
pub mod Pool
use my_chat_project.Prelude.{Bool, true, false, if◌then◌else◌}
use my_chat_project.Exec.{Exec, Outcome, ok, throws, undefined}

pub data Thread (S A : Type 0) : Type 0 where
  done : Outcome A → Thread S A
  act : (S → S) → (S → Thread S A) → Thread S A

module _ {S A : Type 0} where
  -- A section that no other thread can come into.
  abbrev pub atomic : Exec S A → Thread S A
  atomic m = act (λ s. (m s).1) (λ s. done (m s).0)

  abbrev pub return : A → Thread S A
  return a = done (ok a)

module _ {S A B : Type 0} where
  abbrev pub resume : Outcome A → (A → Thread S B) → Thread S B
  resume (ok a) f = f a
  resume (throws e) f = done (throws e)
  resume undefined f = done undefined

  infixl 10 ◌>>=◌ ◌>>◌
  abbrev pub ◌>>=◌ : Thread S A → (A → Thread S B) → Thread S B
  done r >>= f = resume r f
  act step rest >>= f = act step (λ s. rest s >>= f)

  abbrev pub ◌>>◌ : Thread S A → Thread S B → Thread S B
  t >> u = t >>= λ _. u
