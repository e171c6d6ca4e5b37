-- ===== src/Client/Pending/Keys.antt =====
-- The keys of the maps of waiting messages, and how the operations change them.
use my_chat_project.Prelude.{
  ℕ, ◌≤◌, ◌≡◌, ◌≢◌, refl, arith, Bool, true, false, ◌||◌, none, List, [], ◌∷◌, ◌==◌, if◌then◌else◌,
}
use my_chat_project.Client.Pending.{Assoc, find, put, erase, keys, touch}

unfoldable pub has : ℕ → List ℕ → Bool
has id [] = false
has id (k ∷ ks) = (k == id) || has id ks

unfoldable pub put_key : ℕ → List ℕ → List ℕ
put_key id [] = id ∷ []
put_key id (k ∷ ks) = if k == id then k ∷ ks else k ∷ put_key id ks

unfoldable pub erase_key : ℕ → List ℕ → List ℕ
erase_key id [] = []
erase_key id (k ∷ ks) = if k == id then ks else k ∷ erase_key id ks

module _ {V : Type 0} where
  pub keys-put : (id : ℕ) (v : V) (m : Assoc V) → keys (put id v m) ≡ put_key id (keys m)
  unfolding put put_key
  keys-put id v [] = refl
  keys-put id v ((k, w) ∷ m) = ground (arith, keys-put id v m)

  pub keys-erase : (id : ℕ) (m : Assoc V) → keys (erase id m) ≡ erase_key id (keys m)
  unfolding erase erase_key
  keys-erase id [] = refl
  keys-erase id ((k, w) ∷ m) = ground (arith, keys-erase id m)

  -- There is an entry exactly for the keys.
  pub find-none : (id : ℕ) (m : Assoc V) → has id (keys m) ≡ false → find id m ≡ none
  unfolding find has
  find-none id [] h = refl
  find-none id ((k, w) ∷ m) h = ground (arith, find-none id m)

pub keys-touch : (id : ℕ) (m : Assoc ℕ) → keys (touch id m) ≡ put_key id (keys m)
unfolding touch put_key
keys-touch id [] = refl
keys-touch id ((k, w) ∷ m) = ground (arith, keys-touch id m)

pub put_key-has : (id : ℕ) (ks : List ℕ) → has id ks ≡ true → put_key id ks ≡ ks
unfolding put_key has
put_key-has id [] h = cc
put_key-has id (k ∷ ks) h = ground (arith, put_key-has id ks)

pub has-erase_key_ne :
    (id other : ℕ) (ks : List ℕ)
    → id ≢ other
    → has other ks ≡ true
    → has other (erase_key id ks) ≡ true
unfolding erase_key has
has-erase_key_ne id other [] n h = h
has-erase_key_ne id other (k ∷ ks) n h = ground (arith, has-erase_key_ne id other ks n)

-- No key twice.
abbrev pub Distinct : List ℕ → Type 0
Distinct [] = Unit {0}
Distinct (k ∷ ks) = (has k ks ≡ false) × Distinct ks

has-put_key_ne :
    (id k : ℕ) (ks : List ℕ) → id ≢ k → has k ks ≡ false → has k (put_key id ks) ≡ false
unfolding put_key has
has-put_key_ne id k [] n h = ground arith
has-put_key_ne id k (j ∷ ks) n h = ground (arith, has-put_key_ne id k ks n)

pub put_key-Distinct : (id : ℕ) (ks : List ℕ) → Distinct ks → Distinct (put_key id ks)
unfolding put_key has
put_key-Distinct id [] d = (refl, tt)
put_key-Distinct id (k ∷ ks) d = ground (arith, has-put_key_ne id k ks, put_key-Distinct id ks d.1)

has-erase_key : (id k : ℕ) (ks : List ℕ) → has k ks ≡ false → has k (erase_key id ks) ≡ false
unfolding erase_key has
has-erase_key id k [] h = h
has-erase_key id k (j ∷ ks) h = ground (arith, has-erase_key id k ks)

pub erase_key-Distinct : (id : ℕ) (ks : List ℕ) → Distinct ks → Distinct (erase_key id ks)
unfolding erase_key
erase_key-Distinct id [] d = tt
erase_key-Distinct id (k ∷ ks) d =
    ground (arith, has-erase_key id k ks d.0, erase_key-Distinct id ks d.1)

pub has-erase_key_self : (id : ℕ) (ks : List ℕ) → Distinct ks → has id (erase_key id ks) ≡ false
unfolding erase_key has
has-erase_key_self id [] d = refl
has-erase_key_self id (k ∷ ks) d = ground (arith, has-erase_key_self id ks d.1)

module _ {V : Type 0} where
  pub has-find-none : (id : ℕ) (m : Assoc V) → find id m ≡ none → has id (keys m) ≡ false
  unfolding find has
  has-find-none id [] h = refl
  has-find-none id ((k, w) ∷ m) h = ground (arith, has-find-none id m)

  pub find-none_of_keys :
      (id : ℕ) (m : Assoc V) (ks : List ℕ) → keys m ≡ ks → has id ks ≡ false → find id m ≡ none
  find-none_of_keys id m ks e h = find-none id m (rw e h)

  pub find-erase_self :
      (id : ℕ) (m : Assoc V) (ks : List ℕ) → keys m ≡ ks → Distinct ks → find id (erase id m) ≡ none
  find-erase_self id m ks e d =
      find-none id (erase id m) (rw (keys-erase id m, e) (has-erase_key_self id ks d))

-- All values are at most `n`.
abbrev pub AllLe : ℕ → Assoc ℕ → Type 0
AllLe n [] = Unit {0}
AllLe n ((k, v) ∷ m) = (v ≤ n) × AllLe n m

pub put-AllLe : (n id v : ℕ) (m : Assoc ℕ) → v ≤ n → AllLe n m → AllLe n (put id v m)
unfolding put
put-AllLe n id v [] h a = (h, tt)
put-AllLe n id v ((k, w) ∷ m) h a = ground (arith, put-AllLe n id v m h a.1)

pub erase-AllLe : (n id : ℕ) (m : Assoc ℕ) → AllLe n m → AllLe n (erase id m)
unfolding erase
erase-AllLe n id [] a = tt
erase-AllLe n id ((k, w) ∷ m) a = ground (arith, erase-AllLe n id m a.1)

pub touch-AllLe : (n id : ℕ) (m : Assoc ℕ) → AllLe n m → AllLe n (touch id m)
unfolding touch
touch-AllLe n id [] a = (omega arith, tt)
touch-AllLe n id ((k, w) ∷ m) a = ground (arith, touch-AllLe n id m a.1)
