-- ===== src/Database.antt =====
-- src/core/mydb.cpp: queries to SQLite, whose rows are kept in one table of cells.
pub mod Cursor
pub mod Query
pub mod Statements
pub mod Setup
use evcp.Base.{
  ℕ, zero, suc, ◌+◌, ◌-◌, ◌*◌, ◌/◌, [], ◌∷◌, ◌++◌, List, Option, none, some, Bool, true, false,
  Bytes, ltb, ◌==◌, if◌then◌else◌, length, take, drop,
}

abbrev pub Row : Type 0
Row = List Bytes

-- `DBRESX`: the cells that `tbl` holds in front of `tblpos`, the cells that are allocated, and the
-- counts. The first row of a table holds the names of its columns.
pub record Result : Type 0 where
  pub tbl : List Bytes
  pub tblsz : ℕ
  pub rows : ℕ
  pub cols : ℕ
  pub crow : ℕ
  pub lastresult : ℕ

-- What SQLite makes of one statement of a text: an error when it is prepared, nothing (a comment or
-- white space), or a statement with the names of its columns, the rows that it steps through, whose
-- cells may be NULL, and the code of `sqlite3_finalize`.
pub data Prepared : Type 0 where
  prepare_error : ℕ → Prepared
  blank : Prepared
  statement : Row → List (List (Option Bytes)) → ℕ → Prepared

-- `realloc`, `malloc` and `sqlite3_malloc`: whether so many bytes are given
pub record Allocator : Type 0 where
  pub realloc : ℕ → Bool
  pub malloc : ℕ → Bool

-- `for(int i = 0; i < r->cols; i++)` of `db_save_row`, over the row's cells
unfoldable pub save_cells : (ℕ → Bool) → Row → Result → Bool × Result
save_cells malloc [] r = (true, r)
save_cells malloc (x ∷ xs) r =
    let rest = save_cells malloc xs (record r { tbl = r.tbl ++ x ∷ [] }) in
    if malloc (length x + 1) then rest else (false, r)

-- `db_save_row`; a pointer has 8 bytes.
unfoldable pub save_row : Allocator → Row → Result → Bool × Result
unfolding save_cells
save_row a xs r =
    let newsize = r.tblsz + r.cols in
    let grows = ltb ((r.tblsz - length r.tbl) / 8) newsize in
    let grown = if grows then record r { tblsz = newsize } else r in
    let (saved, r') = save_cells a.malloc xs grown in
    if grows
    then (if a.realloc (newsize * 8)
        then (saved, if saved then record r' { rows = r'.rows + 1 } else r')
        else (false, r))
    else (saved, if saved then record r' { rows = r'.rows + 1 } else r')

-- The values of a row, unless one of them is NULL.
unfoldable pub values : List (Option Bytes) → Option Row
values [] = some []
values (none ∷ xs) = none
values (some x ∷ xs) = elim (values xs) [ none ↦ none | some ys ↦ some (x ∷ ys) ]

-- `do … while(SQLITE_ROW == r->lastresult)`: it ends at a row that has a NULL, or is not saved.
unfoldable pub save_rows : Allocator → List (List (Option Bytes)) → Result → Result
unfolding save_row values
save_rows a [] r = r
save_rows a (row ∷ more) r = elim (values row) [
  | none ↦ r
  | some xs ↦
      let (saved, r') = save_row a xs r in elim saved [ true ↦ save_rows a more r' | false ↦ r' ]
]

-- One statement, from its first step to `sqlite3_finalize`
unfoldable pub run_statement : Allocator → Row → List (List (Option Bytes)) → Result → Result
unfolding save_rows save_row
run_statement a names [] r = r
run_statement a names (row ∷ more) r =
    let r' = record r { cols = length names } in
    if a.malloc (2 * r'.cols * 8 + 1) then save_rows a (row ∷ more) (save_row a names r').1 else r'

-- `while( sql[0] && (SQLITE_OK == r->lastresult) )`, over the statements of the text
unfoldable pub run_all : Allocator → List Prepared → Result → Result
unfolding run_statement
run_all a [] r = r
run_all a (prepare_error e ∷ more) r = record r { lastresult = e }
run_all a (blank ∷ more) r = run_all a more (record r { lastresult = 0 })
run_all a (statement names rows fin ∷ more) r =
    let r' = run_statement a names rows r in
    elim (fin == 0) [
      | true ↦ run_all a more (record r' { lastresult = 0 })
      | false ↦ record r' { lastresult = fin }
    ]

abbrev pub empty_result : Result
empty_result = record { tbl = []; tblsz = 0; rows = 0; cols = 0; crow = 0; lastresult = 0 }

-- `db_query`
unfoldable pub db_query : Allocator → List Prepared → Result
unfolding run_all
db_query a sql = run_all a sql empty_result

-- `db_fetch_row`: the row, and the result with its cursor moved
unfoldable pub fetch_row : Result → Option Row × Result
fetch_row r =
    if ltb (r.crow + 1) r.rows
    then (some (take r.cols (drop (r.cols * (r.crow + 1)) r.tbl)), record r { crow = r.crow + 1 })
    else (none, r)

-- `db_num_rows`
unfoldable pub num_rows : Result → ℕ
num_rows r = if ltb 1 r.rows then r.rows - 1 else 0

-- `while(r = db_fetch_row(q))`, in rounds
unfoldable pub each_row {ℓ} : {S : Type ℓ} → ℕ → (Row → S → S) → Result → S → S
unfolding fetch_row
each_row zero body q s = s
each_row (suc n) body q s =
    let (o, q') = fetch_row q in elim o [ none ↦ s | some row ↦ each_row n body q' (body row s) ]
