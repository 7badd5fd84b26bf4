-- ===== src/Bytes/Locality.antt =====
-- A reader never looks behind the bytes that it takes: on a longer buffer it gives the same value.
-- So no reader that reads back a whole encoding accepts a proper prefix of it.
use dora_foxglove.Prelude.{
  ℕ, zero, suc, ◌≡◌, ◌≢◌, List, [], ◌∷◌, ◌++◌, ok, err, Result-cases, inl, inr, Bool-cases, leb,
  ◌*◌, ◌^◌, ◌-◌,
}
use dora_foxglove.Bytes.{
  Reader, Fault, ◌>>=◌, return, bool_of, get_le, read_bytes, read_le, read_bool, read_many, resize,
}

pub record IsLocal {A : Type 0} (p : Reader A) : Type 0 where
  pub extend :
      (s more : List ℕ) (a : A) (rest : List ℕ)
      → p s ≡ ok (a, rest)
      → p (s ++ more) ≡ ok (a, rest ++ more)

pub return-IsLocal : {A : Type 0} (a : A) → IsLocal (return a)
return-IsLocal a = record { extend = λ s more b rest e. cc e }

pub >>=-IsLocal :
    {A B : Type 0} {m : Reader A} {f : A → Reader B}
    → IsLocal m
    → ((a : A) → IsLocal (f a))
    → IsLocal (m >>= f)
>>=-IsLocal {A} {B} {m} {f} hm hf = record { extend = extends }
  where
    extends :
        (s more : List ℕ) (b : B) (rest : List ℕ)
        → (m >>= f) s ≡ ok (b, rest)
        → (m >>= f) (s ++ more) ≡ ok (b, rest ++ more)
    extends s more b rest e = elim (Result-cases (m s)) [
      | inl ((a, r), q) ↦ rw (hm.extend s more a r q) ((hf a).extend r more b rest (rw q at e))
      | inr (x, q) ↦ cc (rw q at e)
    ]

read_bytes_extend :
    (n : ℕ) (s more xs rest : List ℕ)
    → read_bytes n s ≡ ok (xs, rest)
    → read_bytes n (s ++ more) ≡ ok (xs, rest ++ more)
unfolding read_bytes
read_bytes_extend zero s more xs rest e = cc e
read_bytes_extend (suc n) [] more xs rest e = cc e
read_bytes_extend (suc n) (b ∷ s) more xs rest e = elim (Result-cases (read_bytes n s)) [
  | inl ((ys, r), q) ↦ rw (read_bytes_extend n s more ys r q) (cc (rw q at e))
  | inr (x, q) ↦ cc (rw q at e)
]

pub read_bytes-IsLocal : (n : ℕ) → IsLocal (read_bytes n)
read_bytes-IsLocal n = record { extend = read_bytes_extend n }

pub read_le-IsLocal : (k : ℕ) → IsLocal (read_le k)
unfolding read_le
read_le-IsLocal k = >>=-IsLocal (read_bytes-IsLocal k) (λ bs. return-IsLocal (get_le bs))

bool_of-IsLocal : (b : ℕ) → IsLocal (bool_of b)
bool_of-IsLocal zero = record { extend = λ s more b rest e. cc e }
bool_of-IsLocal (suc zero) = record { extend = λ s more b rest e. cc e }
bool_of-IsLocal (suc (suc b)) = record { extend = λ s more b rest e. cc e }

pub read_bool-IsLocal : IsLocal read_bool
unfolding read_bool
read_bool-IsLocal = >>=-IsLocal (read_le-IsLocal 1) bool_of-IsLocal

pub resize-IsLocal : (size n : ℕ) → IsLocal (resize size n)
unfolding resize
resize-IsLocal size n = elim (Bool-cases (leb (n * size) (2 ^ 63 - 1))) [
  | inl h ↦ record { extend = λ s more a rest e. rw h (cc (rw h at e)) }
  | inr h ↦ record { extend = λ s more a rest e. cc (rw h at e) }
]

many_extend :
    {A : Type 0} (p : Reader A)
    → IsLocal p
    → (n : ℕ) (s more : List ℕ) (xs : List A) (rest : List ℕ) → read_many p n s ≡ ok (xs, rest)
    → read_many p n (s ++ more) ≡ ok (xs, rest ++ more)
unfolding read_many
many_extend p h zero s more xs rest e = cc e
many_extend p h (suc n) s more xs rest e = elim (Result-cases (p s)) [
  | inl ((a, r), q) ↦
      let e' = rw q at e in
      elim (Result-cases (read_many p n r)) [
        | inl ((ys, t), q') ↦
            rw (h.extend s more a r q, many_extend p h n r more ys t q') (cc (rw q' at e'))
        | inr (x, q') ↦ cc (rw q' at e')
      ]
  | inr (x, q) ↦ cc (rw q at e)
]

pub read_many-IsLocal : {A : Type 0} {p : Reader A} (n : ℕ) → IsLocal p → IsLocal (read_many p n)
read_many-IsLocal {p} n h = record { extend = many_extend p h n }

append-ne-nil : {A : Type 0} (xs : List A) (y : A) (ys : List A) → xs ++ y ∷ ys ≢ []
append-ne-nil [] y ys e = cc
append-ne-nil (x ∷ xs) y ys e = cc

-- If `p` reads a whole text with nothing left, it fails on every proper prefix of it.
pub prefix_fails :
    {A : Type 0} {p : Reader A} (h : IsLocal p) (a : A) (front : List ℕ) (x : ℕ) (back : List ℕ)
    → p (front ++ x ∷ back) ≡ ok (a, [])
    → (e : Fault) × (p front ≡ err e)
prefix_fails {A} {p} h a front x back whole = elim (Result-cases (p front)) [
  | inr (e, q) ↦ (e, q)
  | inl ((b, rest), q) ↦
      absurd (append-ne-nil rest x back (cc (whole, h.extend front (x ∷ back) b rest q)))
]
