-- ===== src/Database/Cursor.antt =====
-- A result as a queue of rows: what `db_fetch_row` and `db_num_rows` promise of it.
use evcp.Base.{
  ℕ, zero, suc, ◌+◌, ◌*◌, ◌≤◌, ◌≡◌, refl, sym, ap, ◌∙◌, [], ◌∷◌, ◌++◌, List, Option, none, some,
  Bytes, length, take, drop, length-append, append_assoc, append-nil, arith, ltb, true, false,
  take-append_length, drop-append_length,
}
use evcp.Database.{Row, Result, fetch_row, each_row}

abbrev pub cells : List Row → List Bytes
cells [] = []
cells (xs ∷ more) = xs ++ cells more

abbrev pub AllHave : ℕ → List Row → Type 0
AllHave n [] = Unit
AllHave n (xs ∷ more) = (length xs ≡ n) × AllHave n more

-- The rows that a result still has to give. `passed` are the names of the columns and the rows that
-- the cursor has gone over; a result that no row was saved in gives none.
pub data Represents (q : Result) (pending : List Row) : Type 0 where
  empty : q.rows ≡ 0 → pending ≡ [] → Represents q pending
  table :
      (passed : List Row)
      → q.tbl ≡ cells passed ++ cells pending
      → AllHave q.cols passed
      → AllHave q.cols pending
      → length passed ≡ q.crow + 1
      → q.rows ≡ length passed + length pending
      → Represents q pending

length-cells : (n : ℕ) (rows : List Row) → AllHave n rows → length (cells rows) ≡ n * length rows
length-cells n [] h = grind arith
length-cells n (xs ∷ more) (e, h) =
    omega (arith, length-append xs (cells more), length-cells n more h, mul-suc n (length more))
  where
    mul-suc : (n m : ℕ) → n * suc m ≡ n + n * m
    mul-suc n m = grind arith

pub AllHave-append : (n : ℕ) (xs ys : List Row) → AllHave n xs → AllHave n ys → AllHave n (xs ++ ys)
AllHave-append n [] ys h k = k
AllHave-append n (x ∷ xs) ys (e, h) k = (e, AllHave-append n xs ys h k)

pub cells-append : (xs ys : List Row) → cells (xs ++ ys) ≡ cells xs ++ cells ys
cells-append [] ys = refl
cells-append (x ∷ xs) ys = rw (cells-append xs ys) (sym (append_assoc x (cells xs) (cells ys)))

-- What a queue of rows gives.
abbrev pub head_row : List Row → Option Row
head_row [] = none
head_row (row ∷ more) = some row

abbrev pub rest_rows : List Row → List Row
rest_rows [] = []
rest_rows (row ∷ more) = more

row_at :
    (q : Result) (passed : List Row) (row : Row) (more : List Row)
    → q.tbl ≡ cells passed ++ (row ++ cells more)
    → AllHave q.cols passed
    → length row ≡ q.cols
    → length passed ≡ q.crow + 1
    → take q.cols (drop (q.cols * (q.crow + 1)) q.tbl) ≡ row
row_at q passed row more t h e l =
    let place : length (cells passed) ≡ q.cols * (q.crow + 1) =
      length-cells q.cols passed h ∙ ap (λ (k : ℕ). q.cols * k) l in
    rw (t, sym place, sym e, drop-append_length (cells passed) (row ++ cells more))
      (take-append_length row (cells more))

-- `db_fetch_row` gives the rows of a result in their order, each once, and then NULL.
pub fetch_row-Represents :
    (q : Result) (pending : List Row)
    → Represents q pending
    → ((fetch_row q).0 ≡ head_row pending) × Represents (fetch_row q).1 (rest_rows pending)
unfolding fetch_row
fetch_row-Represents q [] (empty r e) =
    let stop : ltb (q.crow + 1) q.rows ≡ false = ground (arith, r) in rw stop (refl, empty r refl)
fetch_row-Represents q (row ∷ more) (empty r e) = absurd (let e' = ap length e in omega arith)
fetch_row-Represents q [] (table passed t h hs l r) =
    let stop : ltb (q.crow + 1) q.rows ≡ false = ground (arith, r, l) in
    rw stop (refl, table passed t h hs l r)
fetch_row-Represents q (row ∷ more) (table passed t h (e, hs) l r) =
    let go_on : ltb (q.crow + 1) q.rows ≡ true = ground (arith, r, l) in
    rw go_on (
      ap some (row_at q passed row more t h e l),
      table (passed ++ row ∷ [])
          (t
            ∙ sym (append_assoc (cells passed) row (cells more))
            ∙ ap (λ xs. xs ++ cells more) (sym (one_more passed row)))
          (AllHave-append q.cols passed (row ∷ []) h (e, tt)) hs
          (omega (arith, length-append passed (row ∷ [])))
          (omega (arith, length-append passed (row ∷ []))),
    )
  where
    one_more : (passed : List Row) (row : Row) → cells (passed ++ row ∷ []) ≡ cells passed ++ row
    one_more passed row =
        cells-append passed (row ∷ []) ∙ ap (λ xs. cells passed ++ xs) (append-nil row)

-- The loop over a result is a fold over its rows, if it is given a round for each.
abbrev pub fold_rows {ℓ} : {S : Type ℓ} → (Row → S → S) → List Row → S → S
fold_rows body [] s = s
fold_rows body (row ∷ more) s = fold_rows body more (body row s)

next_row {ℓ} : {S : Type ℓ} → ℕ → (Row → S → S) → Result → S → Option Row → S
next_row n body q s o = elim o [ none ↦ s | some row ↦ each_row n body q (body row s) ]

pub each_row-Represents {ℓ} :
    {S : Type ℓ} (n : ℕ) (body : Row → S → S) (q : Result) (pending : List Row) (s : S)
    → Represents q pending
    → length pending ≤ n
    → each_row n body q s ≡ fold_rows body pending s
unfolding each_row next_row
each_row-Represents zero body q [] s h l = refl
each_row-Represents zero body q (row ∷ more) s h l = absurd (omega arith)
each_row-Represents (suc n) body q [] s h l =
    let (none_left, _) = fetch_row-Represents q [] h in
    ap (next_row n body (fetch_row q).1 s) none_left
each_row-Represents (suc n) body q (row ∷ more) s h l =
    let (first, rest) = fetch_row-Represents q (row ∷ more) h in
    ap (next_row n body (fetch_row q).1 s) first
    ∙ each_row-Represents n body (fetch_row q).1 more (body row s) rest (omega arith)

pub length-Represents :
    (q : Result) (pending : List Row) → Represents q pending → length pending ≤ q.rows
length-Represents q pending (empty r e) = rw e (omega arith)
length-Represents q pending (table passed t h hs l r) = omega (arith, r)
