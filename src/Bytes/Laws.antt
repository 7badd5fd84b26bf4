-- ===== src/Bytes/Laws.antt =====
-- What a reader reads back from what the matching writer wrote, and leaves what follows.
use native.Mathlib.Nat.{pow-suc}
use dora_foxglove.Prelude.{
  ℕ, zero, suc, ◌*◌, ◌/◌, ◌^◌, ◌<◌, ◌≡◌, refl, ap, ◌∙◌, Bool, true, false, List, [], ◌∷◌, ◌++◌, ok,
  arith, length, length-append, All, append_assoc,
}
use dora_foxglove.Bytes.{
  put_le, get_le, Reader, read_bytes, read_le, put_bool, read_bool, put_all, read_many, resize,
}

abbrev pub IsByte : ℕ → Type 0
IsByte b = b < 256

pub length-put_le : (k v : ℕ) → length (put_le k v) ≡ k
unfolding put_le
length-put_le zero v = refl
length-put_le (suc k) v = ap suc (length-put_le k (v / 256))

pub put_le-IsByte : (k v : ℕ) → All IsByte (put_le k v)
unfolding put_le
put_le-IsByte zero v = tt
put_le-IsByte (suc k) v = (omega arith, put_le-IsByte k (v / 256))

pub get_le-put_le : (k v : ℕ) → v < 256 ^ k → get_le (put_le k v) ≡ v
unfolding put_le get_le
get_le-put_le zero v h = omega arith
get_le-put_le (suc k) v h = omega (arith, get_le-put_le k (v / 256) (omega (arith, pow-suc 256 k)))

pub read_bytes-append : (xs rest : List ℕ) → read_bytes (length xs) (xs ++ rest) ≡ ok (xs, rest)
unfolding read_bytes
read_bytes-append [] rest = refl
read_bytes-append (x ∷ xs) rest = rw (read_bytes-append xs rest)

-- The same with the count given as another expression.
pub read_bytes_exact :
    (n : ℕ) (xs rest : List ℕ) → n ≡ length xs → read_bytes n (xs ++ rest) ≡ ok (xs, rest)
read_bytes_exact n xs rest e = rw e (read_bytes-append xs rest)

pub read_le-put_le :
    (k v : ℕ) (rest : List ℕ) → v < 256 ^ k → read_le k (put_le k v ++ rest) ≡ ok (v, rest)
unfolding read_le
read_le-put_le k v rest h =
    rw
      (read_bytes_exact k (put_le k v) rest (omega (arith, length-put_le k v)), get_le-put_le k v h)

pub read_bool-put_bool : (b : Bool) (rest : List ℕ) → read_bool (put_bool b ++ rest) ≡ ok (b, rest)
unfolding read_bool put_bool read_le read_bytes get_le
read_bool-put_bool false rest = refl
read_bool-put_bool true rest = refl

module _ {A : Type 0} (P : A → Type 0) (put : A → List ℕ) (read : Reader A)
    (back : (a : A) (rest : List ℕ) → P a → read (put a ++ rest) ≡ ok (a, rest)) where
  pub read_many-put_all :
      (xs : List A) (rest : List ℕ)
      → All P xs
      → read_many read (length xs) (put_all put xs ++ rest) ≡ ok (xs, rest)
  unfolding read_many put_all
  read_many-put_all [] rest h = refl
  read_many-put_all (x ∷ xs) rest h = rw (
    append_assoc (put x) (put_all put xs) rest,
    back x (put_all put xs ++ rest) h.0,
    read_many-put_all xs rest h.1,
  )

-- Elements of `k` bytes each.
pub length-put_all :
    {A : Type 0} (put : A → List ℕ) (k : ℕ) (same : (a : A) → length (put a) ≡ k) (xs : List A)
    → length (put_all put xs) ≡ length xs * k
unfolding put_all
length-put_all put k same [] = omega arith
length-put_all put k same (x ∷ xs) =
    length-append (put x) (put_all put xs) ∙ omega (arith, same x, length-put_all put k same xs)

pub resize_fits : (size n : ℕ) (s : List ℕ) → n * size < 2 ^ 63 → resize size n s ≡ ok (tt, s)
unfolding resize
resize_fits size n s h = ground arith
