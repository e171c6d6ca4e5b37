-- ===== src/Client/Pending/Lookup.antt =====
-- What a lookup finds after an update.
use my_chat_project.Prelude.{ℕ, ◌≡◌, ◌≢◌, refl, arith, ap, some, [], ◌∷◌}
use my_chat_project.Client.Pending.{Assoc, find, put, erase, touch, read, value_or_zero}

module _ {V : Type 0} where
  pub find-put_self : (id : ℕ) (v : V) (m : Assoc V) → find id (put id v m) ≡ some v
  unfolding find put
  find-put_self id v [] = ground arith
  find-put_self id v ((k, w) ∷ m) = ground (arith, find-put_self id v m)

  pub find-put_ne :
      (id other : ℕ) (v : V) (m : Assoc V) → id ≢ other → find other (put id v m) ≡ find other m
  unfolding find put
  find-put_ne id other v [] n = ground arith
  find-put_ne id other v ((k, w) ∷ m) n = ground (arith, find-put_ne id other v m n)

  pub find-erase_ne :
      (id other : ℕ) (m : Assoc V) → id ≢ other → find other (erase id m) ≡ find other m
  unfolding find erase
  find-erase_ne id other [] n = refl
  find-erase_ne id other ((k, w) ∷ m) n = ground (arith, find-erase_ne id other m n)

pub find-touch_ne :
    (id other : ℕ) (m : Assoc ℕ) → id ≢ other → find other (touch id m) ≡ find other m
unfolding find touch
find-touch_ne id other [] n = ground arith
find-touch_ne id other ((k, w) ∷ m) n = ground (arith, find-touch_ne id other m n)

pub read-touch_self : (id : ℕ) (m : Assoc ℕ) → read id (touch id m) ≡ read id m
unfolding read find touch value_or_zero
read-touch_self id [] = ground arith
read-touch_self id ((k, w) ∷ m) = ground (arith, read-touch_self id m)

pub read-put_self : (id n : ℕ) (m : Assoc ℕ) → read id (put id n m) ≡ n
unfolding read value_or_zero
read-put_self id n m = rw (find-put_self id n m)

pub read-put_ne :
    (id other n : ℕ) (m : Assoc ℕ) → id ≢ other → read other (put id n m) ≡ read other m
unfolding read
read-put_ne id other n m h = ap value_or_zero (find-put_ne id other n m h)

pub read-erase_ne :
    (id other : ℕ) (m : Assoc ℕ) → id ≢ other → read other (erase id m) ≡ read other m
unfolding read
read-erase_ne id other m h = ap value_or_zero (find-erase_ne id other m h)

pub read-touch_ne :
    (id other : ℕ) (m : Assoc ℕ) → id ≢ other → read other (touch id m) ≡ read other m
unfolding read
read-touch_ne id other m h = ap value_or_zero (find-touch_ne id other m h)
