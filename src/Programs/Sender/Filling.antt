-- ===== src/Programs/Sender/Filling.antt =====
-- The loop that fills the point cloud.
use dora_foxglove.Prelude.{
  ℕ, zero, suc, ◌+◌, ◌*◌, ◌≤◌, ◌≡◌, refl, sym, ap, ◌∙◌, List, [], ◌∷◌, ◌++◌, ok, arith, length,
  length-append, All, append-nil, append_assoc,
}
use dora_foxglove.Bytes.{read_bytes}
use dora_foxglove.Bytes.Laws.{read_bytes-append}
use dora_foxglove.Programs.Sender.{overwrite, fill}

unfoldable pub concat : List (List ℕ) → List ℕ
concat [] = []
concat (row ∷ rows) = row ++ concat rows

overwrite-start :
    (bytes old rest : List ℕ)
    → length old ≡ length bytes
    → overwrite 0 bytes (old ++ rest) ≡ ok (bytes ++ rest)
unfolding overwrite
overwrite-start [] [] rest e = refl
overwrite-start [] (x ∷ old) rest e = absurd (omega arith)
overwrite-start (b ∷ bytes) [] rest e = absurd (omega arith)
overwrite-start (b ∷ bytes) (x ∷ old) rest e =
    rw (overwrite-start bytes old rest (omega arith)) refl

overwrite-middle :
    (before bytes old rest : List ℕ)
    → length old ≡ length bytes
    → overwrite (length before) bytes (before ++ old ++ rest) ≡ ok (before ++ bytes ++ rest)
unfolding overwrite
overwrite-middle [] bytes old rest e = overwrite-start bytes old rest e
overwrite-middle (x ∷ before) bytes old rest e = rw (overwrite-middle before bytes old rest e) refl

split :
    (n : ℕ) (xs : List ℕ)
    → n ≤ length xs
    → (old : List ℕ) × (rest : List ℕ) × (old ++ rest ≡ xs) × (length old ≡ n)
split zero xs h = ([], xs, refl, refl)
split (suc n) [] h = absurd (omega arith)
split (suc n) (x ∷ xs) h =
    let (old, rest, e, l) = split n xs (omega arith) in
    (x ∷ old, rest, ap (λ (ys : List ℕ). x ∷ ys) e, omega (arith, l))

read_row : (step : ℕ) (row : List ℕ) → length row ≡ step → read_bytes step row ≡ ok (row, [])
read_row step row e =
    rw (← e) (ap (read_bytes (length row)) (sym (append-nil row)) ∙ read_bytes-append row [])

suc_mul : (i step : ℕ) → suc i * step ≡ i * step + step
suc_mul i step = grind arith

mul_suc : (step n : ℕ) → step * suc n ≡ step + step * n
mul_suc step n = grind arith

-- One round, behind the bytes that the rows before have filled.
fill_row :
    (step i : ℕ) (row : List ℕ) (rows : List (List ℕ)) (before old rest : List ℕ)
    → length row ≡ step
    → length before ≡ i * step
    → length old ≡ step
    → fill step i (row ∷ rows) ((before ++ old) ++ rest)
      ≡ fill step (suc i) rows ((before ++ row) ++ rest)
unfolding fill
fill_row step i row rows before old rest h p l =
    rw (read_row step row h, ← p, overwrite-middle before row old rest (l ∙ sym h)) refl

fill-concat_from :
    (step i : ℕ) (rows : List (List ℕ)) (before buffer : List ℕ)
    → All (λ row. length row ≡ step) rows
    → length before ≡ i * step
    → length buffer ≡ step * length rows
    → fill step i rows (before ++ buffer) ≡ ok (before ++ concat rows)
fill-concat_from step i [] before [] h p q = unfold fill concat in refl
fill-concat_from step i [] before (x ∷ buffer) h p q = absurd (omega arith)
fill-concat_from step i (row ∷ rows) before buffer h p q =
    let (old, rest, e, l) = split step buffer (omega (arith, mul_suc step (length rows))) in
    ap (λ (b : List ℕ). fill step i (row ∷ rows) (before ++ b)) (sym e)
    ∙ ap (fill step i (row ∷ rows)) (sym (append_assoc before old rest))
    ∙ fill_row step i row rows before old rest h.0 p l
    ∙ fill-concat_from step (suc i) rows (before ++ row) rest h.1
        (length-append before row ∙ omega (arith, suc_mul i step, h.0))
        (omega (
          arith,
          mul_suc step (length rows),
          ap (λ (ys : List ℕ). length ys) e,
          length-append old rest,
          l,
        ))
    ∙ unfold concat in ap ok (append_assoc before row (concat rows))

-- The loop that copies the points into the point cloud, at offsets that are multiples of
-- point_step, stays inside the buffer and leaves there the bytes of all points, one after the
-- other. Each point has point_step bytes, and the buffer as many as all of them.
pub fill-concat :
    (step : ℕ) (rows : List (List ℕ)) (buffer : List ℕ)
    → All (λ row. length row ≡ step) rows
    → length buffer ≡ step * length rows
    → fill step 0 rows buffer ≡ ok (concat rows)
fill-concat step rows buffer h q = fill-concat_from step 0 rows [] buffer h (omega arith) q
