-- ===== src/Config/Order.antt =====
-- The order in which a Judy array gives its keys to the loops of src/config.c, and the laws of JSLF and
-- JSLN, which are parameters.
use libhelp.Base.{
  starts_with, ◌≡◌, refl, Bool, true, false, not, ◌&&◌, ◌||◌, Option, none, some, [], ◌∷◌, ◌++◌,
  ◌==◌, arith, Bytes, ltb, drop, length,
}
use libhelp.Config.Judy.{Word, Judy}

-- the order of `strcmp`, strictly
unfoldable pub bytes_lt : Bytes → Bytes → Bool
bytes_lt xs [] = false
bytes_lt [] (y ∷ ys) = true
bytes_lt (x ∷ xs) (y ∷ ys) = ltb x y || (x == y && bytes_lt xs ys)

pub bytes_lt_irrefl : (a : Bytes) → bytes_lt a a ≡ false
unfolding bytes_lt
bytes_lt_irrefl [] = refl
bytes_lt_irrefl (x ∷ xs) = ground (arith, bytes_lt_irrefl xs)

pub bytes_lt_trans :
    (a b c : Bytes) → bytes_lt a b ≡ true → bytes_lt b c ≡ true → bytes_lt a c ≡ true
unfolding bytes_lt
bytes_lt_trans a b [] h k = absurd (cc k)
bytes_lt_trans a [] (z ∷ zs) h k = absurd (cc h)
bytes_lt_trans [] (y ∷ ys) (z ∷ zs) h k = refl
bytes_lt_trans (x ∷ xs) (y ∷ ys) (z ∷ zs) h k = ground (arith, h, k, bytes_lt_trans xs ys zs)

pub bytes_ge_trans :
    (a b c : Bytes) → bytes_lt a b ≡ false → bytes_lt b c ≡ false → bytes_lt a c ≡ false
unfolding bytes_lt
bytes_ge_trans a b [] h k = refl
bytes_ge_trans a [] (z ∷ zs) h k = absurd (cc k)
bytes_ge_trans [] (y ∷ ys) (z ∷ zs) h k = absurd (cc h)
bytes_ge_trans (x ∷ xs) (y ∷ ys) (z ∷ zs) h k = ground (arith, h, k, bytes_ge_trans xs ys zs)

pub bytes_lt_asym : (a b : Bytes) → bytes_lt a b ≡ true → bytes_lt b a ≡ false
unfolding bytes_lt
bytes_lt_asym a [] h = absurd (cc h)
bytes_lt_asym [] (y ∷ ys) h = refl
bytes_lt_asym (x ∷ xs) (y ∷ ys) h = ground (arith, h, bytes_lt_asym xs ys)

pub bytes_lt_antisym : (a b : Bytes) → bytes_lt a b ≡ false → bytes_lt b a ≡ false → a ≡ b
unfolding bytes_lt
bytes_lt_antisym [] [] h k = refl
bytes_lt_antisym [] (y ∷ ys) h k = absurd (cc h)
bytes_lt_antisym (x ∷ xs) [] h k = absurd (cc k)
bytes_lt_antisym (x ∷ xs) (y ∷ ys) h k =
    let same : x ≡ y = ground (arith, h, k) in
    let h' : bytes_lt xs ys ≡ false = ground (arith, h, k) in
    let k' : bytes_lt ys xs ≡ false = ground (arith, h, k) in
    let further = bytes_lt_antisym xs ys h' k' in cc

pub bytes_lt-append : (a s : Bytes) → bytes_lt (a ++ s) a ≡ false
unfolding bytes_lt
bytes_lt-append [] s = refl
bytes_lt-append (x ∷ xs) s = ground (arith, bytes_lt-append xs s)

-- Between a name and a key that begins with it, all keys begin with it.
pub starts_with_between :
    (name s i : Bytes)
    → bytes_lt i name ≡ false
    → bytes_lt (name ++ s) i ≡ false
    → starts_with name i ≡ true
unfolding bytes_lt starts_with
starts_with_between [] s i h k = refl
starts_with_between (c ∷ name) s [] h k = absurd (cc h)
starts_with_between (c ∷ name) s (d ∷ i) h k = ground (arith, h, k, starts_with_between name s i)

pub starts_with-append : (name s : Bytes) → starts_with name (name ++ s) ≡ true
unfolding starts_with
starts_with-append [] s = refl
starts_with-append (c ∷ name) s = ground (arith, starts_with-append name s)

pub starts_with_split :
    (name i : Bytes) → starts_with name i ≡ true → i ≡ name ++ drop (length name) i
unfolding starts_with
starts_with_split [] i h = refl
starts_with_split (c ∷ name) [] h = absurd (cc h)
starts_with_split (c ∷ name) (d ∷ i) h =
    let same : c ≡ d = ground (arith, h) in
    let inner : starts_with name i ≡ true = ground (arith, h) in
    let further = starts_with_split name i inner in cc

pub drop-length : (name s : Bytes) → drop (length name) (name ++ s) ≡ s
drop-length [] s = refl
drop-length (c ∷ name) s = drop-length name s

-- the lowest of the keys that pass a test
pub record IsLowest (j : Judy) (a : j.Arr) (passes : Bytes → Bool) (i : Bytes) (w : Word)
    : Type 0 where
  pub held : j.get a i ≡ some w
  pub passed : passes i ≡ true
  pub lowest :
      (i' : Bytes) (w' : Word) → j.get a i' ≡ some w' → passes i' ≡ true → bytes_lt i' i ≡ false

-- What a walk gives: the lowest key that passes, or nothing if none does.
abbrev pub Gives : (j : Judy) → j.Arr → (Bytes → Bool) → Option (Bytes × Word) → Type 0
Gives j a passes (some (i, w)) = IsLowest j a passes i w
Gives j a passes none = (i : Bytes) (w : Word) → j.get a i ≡ some w → passes i ≡ false

-- The laws of JSLF and JSLN.
pub record IsOrdered (j : Judy) : Type 0 where
  pub first : (a : j.Arr) (k : Bytes) → Gives j a (λ i. not (bytes_lt i k)) (j.first a k)
  pub next : (a : j.Arr) (k : Bytes) → Gives j a (bytes_lt k) (j.next a k)
