-- ===== src/Exec/Threads/Pool.antt =====
-- Threads that share a state: at each moment a new one starts or one of them makes a step.
use my_chat_project.Prelude.{
  ℕ, zero, suc, ◌≡◌, refl, Bool, true, false, if◌then◌else◌, List, [], ◌∷◌, ◌++◌,
}
use my_chat_project.Exec.{Exec, Outcome, ok, throws, undefined}
use my_chat_project.Exec.Keeps.{Keeps}
use my_chat_project.Exec.Threads
use my_chat_project.Exec.Threads.{Thread, done, act, atomic, return, resume}

pub record Pool (S : Type 0) : Type 0 where
  pub shared : S
  pub threads : List (Thread S (Unit {0}))

pub data Choice (C : Type 0) : Type 0 where
  begin : C → Choice C
  turn : ℕ → Choice C

module _ {S : Type 0} where
  -- A step of a thread; one that has ended stays as it is.
  unfoldable pub step_thread : Thread S (Unit {0}) → S → Thread S (Unit {0}) × S
  step_thread (done r) s = (done r, s)
  step_thread (act step rest) s = (rest s, step s)

  -- A step of the thread with a number, if there is one.
  unfoldable pub step_at : ℕ → List (Thread S (Unit {0})) → S → List (Thread S (Unit {0})) × S
  step_at i [] s = ([], s)
  step_at zero (t ∷ threads) s = let (t', s') = step_thread t s in (t' ∷ threads, s')
  step_at (suc i) (t ∷ threads) s = let (threads', s') = step_at i threads s in (t ∷ threads', s')

  module _ {C : Type 0} (thread_of : C → Thread S (Unit {0})) where
    unfoldable pub choose : Choice C → Pool S → Pool S
    choose (begin c) p = record p { threads = p.threads ++ thread_of c ∷ [] }
    choose (turn i) p =
        let (threads, s) = step_at i p.threads p.shared in record { shared = s; threads = threads }

    unfoldable pub run_pool : List (Choice C) → Pool S → Pool S
    run_pool [] p = p
    run_pool (c ∷ choices) p = run_pool choices (choose c p)

    pub run_pool-append :
        (choices later : List (Choice C)) (p : Pool S)
        → run_pool (choices ++ later) p ≡ run_pool later (run_pool choices p)
    unfolding run_pool
    run_pool-append [] later p = refl
    run_pool-append (c ∷ choices) later p = run_pool-append choices later (choose c p)

-- Every step of the thread, from any state that the other threads may have left, keeps `P`.
pub data Guarded {S A : Type 0} (P : S → Type 0) : Thread S A → Type 0 where
  ended : (r : Outcome A) → Guarded P (done r)
  stepping :
      (step : S → S) (rest : S → Thread S A)
      → ((s : S) → P s → P (step s))
      → ((s : S) → Guarded P (rest s))
      → Guarded P (act step rest)

module _ {S A : Type 0} (P : S → Type 0) where
  pub Guarded-atomic : (m : Exec S A) → Keeps P m → Guarded P (atomic m)
  Guarded-atomic m k = stepping _ _ k.at (λ s. ended (m s).0)

  pub Guarded-return : (a : A) → Guarded P (return {S = S} a)
  Guarded-return a = ended (ok a)

  pub Guarded-if :
      (b : Bool) (t u : Thread S A) → Guarded P t → Guarded P u → Guarded P (if b then t else u)
  Guarded-if true t u h k = h
  Guarded-if false t u h k = k

module _ {S A B : Type 0} (P : S → Type 0) where
  Guarded-resume :
      (r : Outcome A) (f : A → Thread S B) → ((a : A) → Guarded P (f a)) → Guarded P (resume r f)
  Guarded-resume (ok a) f h = h a
  Guarded-resume (throws e) f h = ended (throws e)
  Guarded-resume undefined f h = ended undefined

  pub Guarded-bind :
      (t : Thread S A) (f : A → Thread S B)
      → Guarded P t
      → ((a : A) → Guarded P (f a))
      → Guarded P (Threads.◌>>=◌ t f)
  Guarded-bind _ f (ended r) h = Guarded-resume r f h
  Guarded-bind _ f (stepping step rest k g) h =
      stepping step _ k (λ s. Guarded-bind (rest s) f (g s) h)

  -- The same for a step whose result is known by what it gave.
  resume-known :
      (r : Outcome A) (f : A → Thread S B)
      → ((a : A) → r ≡ ok a → Guarded P (f a))
      → Guarded P (resume r f)
  resume-known (ok a) f h = h a refl
  resume-known (throws e) f h = ended (throws e)
  resume-known undefined f h = ended undefined

  pub Guarded-known :
      (m : Exec S A) (f : A → Thread S B)
      → Keeps P m
      → ((a : A) (s : S) → (m s).0 ≡ ok a → Guarded P (f a))
      → Guarded P (Threads.◌>>=◌ (atomic m) f)
  Guarded-known m f k h = stepping _ _ k.at (λ s. resume-known (m s).0 f (λ a e. h a s e))

pub ruleset guarded_rules = (Guarded-atomic, Guarded-return, Guarded-if, Guarded-bind)

-- All threads of a list are guarded.
abbrev pub AllGuarded : {S : Type 0} → (S → Type 0) → List (Thread S (Unit {0})) → Type 0
AllGuarded P [] = Unit {0}
AllGuarded P (t ∷ threads) = Guarded P t × AllGuarded P threads

module _ {S : Type 0} (P : S → Type 0) where
  step_thread-Guarded :
      (t : Thread S (Unit {0})) (s : S)
      → Guarded P t
      → P s
      → Guarded P (step_thread t s).0 × P (step_thread t s).1
  unfolding step_thread
  step_thread-Guarded _ s (ended r) h = (ended r, h)
  step_thread-Guarded _ s (stepping step rest k g) h = (g s, k s h)

  step_at-Guarded :
      (i : ℕ) (threads : List (Thread S (Unit {0}))) (s : S)
      → AllGuarded P threads
      → P s
      → AllGuarded P (step_at i threads s).0 × P (step_at i threads s).1
  unfolding step_at
  step_at-Guarded i [] s g h = (tt, h)
  step_at-Guarded zero (t ∷ threads) s (g, gs) h =
      let (g', h') = step_thread-Guarded t s g h in ((g', gs), h')
  step_at-Guarded (suc i) (t ∷ threads) s (g, gs) h =
      let (gs', h') = step_at-Guarded i threads s gs h in ((g, gs'), h')

  AllGuarded-append :
      (threads : List (Thread S (Unit {0}))) (t : Thread S (Unit {0}))
      → AllGuarded P threads
      → Guarded P t
      → AllGuarded P (threads ++ t ∷ [])
  AllGuarded-append [] t gs g = (g, tt)
  AllGuarded-append (u ∷ threads) t (k, gs) g = (k, AllGuarded-append threads t gs g)

  module _ {C : Type 0} (thread_of : C → Thread S (Unit {0})) where
    -- The threads that a list of choices begins are guarded.
    abbrev pub AllBegun : List (Choice C) → Type 0
    AllBegun [] = Unit {0}
    AllBegun (begin c ∷ choices) = Guarded P (thread_of c) × AllBegun choices
    AllBegun (turn i ∷ choices) = AllBegun choices

    -- What every step of every thread keeps holds after any interleaving.
    pub run_pool-Guarded :
        (choices : List (Choice C)) (p : Pool S)
        → AllBegun choices
        → AllGuarded P p.threads
        → P p.shared
        → P (run_pool thread_of choices p).shared
    unfolding run_pool choose
    run_pool-Guarded [] p b g h = h
    run_pool-Guarded (begin c ∷ choices) p (k, b) g h =
        run_pool-Guarded choices (choose thread_of (begin c) p) b
          (AllGuarded-append p.threads (thread_of c) g k) h
    run_pool-Guarded (turn i ∷ choices) p b g h =
        let (g', h') = step_at-Guarded i p.threads p.shared g h in
        run_pool-Guarded choices (choose thread_of (turn i) p) b g' h'
