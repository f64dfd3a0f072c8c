-- ===== src/Database/Query.antt =====
-- What a query saves of a statement's rows.
use evcp.Base.{
  ℕ, ◌+◌, ◌-◌, ◌*◌, ◌/◌, ◌≤◌, ◌≡◌, refl, sym, ap, ◌∙◌, subst, [], ◌∷◌, ◌++◌, List, Option, none,
  some, Bool, true, false, Bytes, length, length-append, append_assoc, append-nil, arith, ltb,
  if◌then◌else◌, Bool-cases, inl, inr, Option-cases,
}
use evcp.Database.{
  Row, Result, statement, Allocator, save_cells, save_row, values, save_rows, run_statement,
  db_query, empty_result,
}
use evcp.Database.Cursor.{cells, AllHave, Represents, empty, table, AllHave-append, cells-append}

-- The rows in front of the first one that has a NULL.
abbrev pub complete : List (List (Option Bytes)) → List Row
complete [] = []
complete (row ∷ more) = elim (values row) [ none ↦ [] | some xs ↦ xs ∷ complete more ]

-- SQLite gives as many values as there are columns.
abbrev pub AreWide : ℕ → List (List (Option Bytes)) → Type 0
AreWide n [] = Unit
AreWide n (row ∷ more) = (length row ≡ n) × AreWide n more

-- The cells that have been written are within those that are allocated.
abbrev pub Fits : Result → Type 0
Fits r = length r.tbl ≤ r.tblsz

length-save_cells :
    (malloc : ℕ → Bool) (xs : Row) (r : Result)
    → (length (save_cells malloc xs r).1.tbl ≤ length r.tbl + length xs)
      × ((save_cells malloc xs r).1.tblsz ≡ r.tblsz)
unfolding save_cells
length-save_cells malloc [] r = omega arith
length-save_cells malloc (x ∷ xs) r =
    let (tbl, size) = length-save_cells malloc xs (record r { tbl = r.tbl ++ x ∷ [] }) in
    ground (arith, length-append r.tbl (x ∷ []))

-- Whatever the allocator does, and however it fails, `db_save_row` writes a row of the result's
-- columns only to cells that are allocated.
save_row-Fits :
    (a : Allocator) (xs : Row) (r : Result) → length xs ≡ r.cols → Fits r → Fits (save_row a xs r).1
unfolding save_row
save_row-Fits a xs r e h =
    let (tbl, size) = length-save_cells a.malloc xs r in
    let (tbl', size') = length-save_cells a.malloc xs (record r { tblsz = r.tblsz + r.cols }) in
    ground arith

length-values :
    (row : List (Option Bytes)) (xs : Row) → values row ≡ some xs → length xs ≡ length row
unfolding values
length-values [] xs e = ground arith
length-values (none ∷ row) xs e = cc
length-values (some x ∷ row) xs e = elim (Option-cases (values row)) [
  | inl n ↦ (let e' = rw n at e in cc)
  | inr (ys, s) ↦
      let e' : some (x ∷ ys) ≡ some xs = rw s at e in let l = length-values row ys s in ground arith
]

module _ (a : Allocator) (reallocs : (n : ℕ) → a.realloc n ≡ true)
    (mallocs : (n : ℕ) → a.malloc n ≡ true) where
  save_cells-all :
      (xs : Row) (r : Result) → save_cells a.malloc xs r ≡ (true, record r { tbl = r.tbl ++ xs })
  unfolding save_cells
  save_cells-all [] r = rw (append-nil r.tbl) refl
  save_cells-all (x ∷ xs) r = rw (mallocs (length x + 1)) (
      save_cells-all xs (record r { tbl = r.tbl ++ x ∷ [] })
      ∙ rw (append_assoc r.tbl (x ∷ []) xs) refl)

  save_row-all :
      (xs : Row) (r : Result)
      → (size : ℕ) × (save_row a xs r
          ≡ (true, record r { tbl = r.tbl ++ xs; tblsz = size; rows = r.rows + 1 }))
  unfolding save_row
  save_row-all xs r = elim (Bool-cases (ltb ((r.tblsz - length r.tbl) / 8) (r.tblsz + r.cols))) [
    | inl y ↦ (
      r.tblsz + r.cols,
      rw
          (
            y,
            reallocs ((r.tblsz + r.cols) * 8),
            save_cells-all xs (record r { tblsz = r.tblsz + r.cols }),
          )
          refl,
    )
    | inr n ↦ (r.tblsz, rw (n, save_cells-all xs r) refl)
  ]

  all_saved :
      (r : Result) (names : Row) (saved : List Row)
      → r.tbl ≡ cells (names ∷ saved)
      → AllHave r.cols (names ∷ saved)
      → r.crow ≡ 0
      → r.rows ≡ 1 + length saved
      → Represents r (saved ++ [])
  all_saved r names saved t h c n =
      rw (append-nil saved)
        (table (names ∷ []) (rw (append-nil names) t) (h.0, tt) h.1 (omega arith) (omega arith))

  one_saved :
      {r' : Result} (xs : Row) (row : List (Option Bytes)) (more : List (List (Option Bytes)))
      (r : Result)
      → values row ≡ some xs
      → save_row a xs r ≡ (true, r')
      → save_rows a (row ∷ more) r ≡ save_rows a more r'
  unfolding save_rows
  one_saved xs row more r s done =
      ap
        (λ o. elim o [
          | none ↦ r
          | some ys ↦
              (let (saved, r') = save_row a ys r in
                elim saved as (λ _. Result) [ true ↦ save_rows a more r' | false ↦ r' ])
        ])
        s
      ∙ ap
          (λ (p : Bool × Result). elim p.0 as (λ _. Result) [
            | true ↦ save_rows a more p.1
            | false ↦ p.1
          ])
          done

  save_rows-Represents :
      (rows : List (List (Option Bytes))) (r : Result) (names : Row) (saved : List Row)
      → r.tbl ≡ cells (names ∷ saved)
      → AllHave r.cols (names ∷ saved)
      → r.crow ≡ 0
      → r.rows ≡ 1 + length saved
      → AreWide r.cols rows
      → Represents (save_rows a rows r) (saved ++ complete rows)
  unfolding save_rows
  save_rows-Represents [] r names saved t h c n w = all_saved r names saved t h c n
  save_rows-Represents (row ∷ more) r names saved t h c n (e, w) =
      elim (Option-cases (values row)) [
        | inl s ↦ rw (s, complete, save_rows) (all_saved r names saved t h c n)
        | inr (xs, s) ↦
            let (size, done) = save_row-all xs r in
            let one_more =
              save_rows-Represents more
                (record r { tbl = r.tbl ++ xs; tblsz = size; rows = r.rows + 1 }) names
                (saved ++ xs ∷ [])
                (rw
                  (
                    t,
                    cells-append saved (xs ∷ []),
                    append-nil xs,
                    append_assoc names (cells saved) xs,
                  )
                  refl)
                (h.0, AllHave-append r.cols saved (xs ∷ []) h.1 (length-values row xs s ∙ e, tt)) c
                (omega (arith, length-append saved (xs ∷ []))) w in
            subst (λ (q : Result). Represents q (saved ++ complete (row ∷ more)))
              (sym (one_saved xs row more r s done))
              (rw (s, complete, sym (append_assoc saved (xs ∷ []) (complete more))) one_more)
      ]

  -- The first row, with the names of the columns in front of it
  run_statement-Represents :
      (names : Row) (row : List (Option Bytes)) (more : List (List (Option Bytes)))
      → AreWide (length names) (row ∷ more)
      → Represents (run_statement a names (row ∷ more) empty_result) (complete (row ∷ more))
  unfolding run_statement
  run_statement-Represents names row more w =
      let (size, done) = save_row-all names (record empty_result { cols = length names }) in
      let start = record empty_result { cols = length names } in
      let saved =
        save_rows-Represents (row ∷ more)
          (record empty_result { cols = length names; tbl = names; tblsz = size; rows = 1 }) names
          [] (sym (append-nil names)) (refl, tt) refl refl w in
      let asked =
        ap (λ (b : Bool). if b then save_rows a (row ∷ more) (save_row a names start).1 else start)
          (mallocs (2 * length names * 8 + 1)) in
      let first = ap (λ (p : Bool × Result). save_rows a (row ∷ more) p.1) done in
      subst (λ (q : Result). Represents q (complete (row ∷ more))) (sym (asked ∙ first)) saved

  ended :
      (q : Result) (pending : List Row)
      → Represents q pending
      → Represents (record q { lastresult = 0 }) pending
  ended q pending (empty r e) = empty r e
  ended q pending (table passed t h hs l r) = table passed t h hs l r

  -- A statement that SQLite runs to its end gives its rows, in their order, up to the first one that
  -- has a NULL: that row and those behind it are missing, and the result's code is that of success. It is
  -- so whenever the allocator gives what it is asked for, and each row is as wide as its names.
  pub query-Represents :
      (names : Row) (rows : List (List (Option Bytes)))
      → AreWide (length names) rows
      → Represents (db_query a (statement names rows 0 ∷ [])) (complete rows)
        × ((db_query a (statement names rows 0 ∷ [])).lastresult ≡ 0)
  unfolding db_query
  query-Represents names [] w = (empty refl refl, refl)
  query-Represents names (row ∷ more) w =
      (ended _ _ (run_statement-Represents names row more w), refl)
