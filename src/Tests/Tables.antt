-- ===== src/Tests/Tables.antt =====
-- Results of queries, at concrete inputs.
use evcp.Base.{◌≡◌, ◌++◌, refl, none, some, codes, true, false, [], ◌∷◌, List, Option, Bytes}
use evcp.Database.{Row, Result, Allocator, statement, db_query, fetch_row, num_rows, values}
use evcp.Database.Cursor.{Represents, table, fetch_row-Represents}
use evcp.Database.Query.{complete, query-Represents}

abbrev names : Row
names = codes "id" ∷ codes "name" ∷ []

abbrev ann : Row
ann = codes "1" ∷ codes "ann" ∷ []

abbrev bob : Row
bob = codes "2" ∷ codes "bob" ∷ []

-- A result with two rows, neither of which has been fetched
abbrev users : Result
users = record {
  tbl = names ++ (ann ++ bob);
  tblsz = 8;
  rows = 3;
  cols = 2;
  crow = 0;
  lastresult = 0;
}

users-Represents : Represents users (ann ∷ bob ∷ [])
users-Represents = table (names ∷ []) refl (refl, tt) (refl, (refl, tt)) refl refl

fetch_row-Represents_example :
    ((fetch_row users).0 ≡ some ann) × Represents (fetch_row users).1 (bob ∷ [])
fetch_row-Represents_example = fetch_row-Represents users (ann ∷ bob ∷ []) users-Represents

abbrev granting : Allocator
granting = record { realloc = λ n. true; malloc = λ n. true }

-- The second row has a NULL.
abbrev rows : List (List (Option Bytes))
rows =
    (some (codes "1") ∷ some (codes "ann") ∷ [])
    ∷ (some (codes "2") ∷ none ∷ [])
    ∷ (some (codes "3") ∷ some (codes "cat") ∷ [])
    ∷ []

rows_until_null : complete rows ≡ ann ∷ []
unfolding values
rows_until_null = refl

query-Represents_example :
    Represents (db_query granting (statement names rows 0 ∷ [])) (complete rows)
    × ((db_query granting (statement names rows 0 ∷ [])).lastresult ≡ 0)
query-Represents_example =
    query-Represents granting (λ n. refl) (λ n. refl) names rows (refl, (refl, (refl, tt)))

-- One row, though SQLite gave three
one_row : num_rows (db_query granting (statement names rows 0 ∷ [])) ≡ 1
unfolding num_rows db_query
one_row = refl

-- An allocator that gives out no cell
abbrev refusing : Allocator
refusing = record { realloc = λ n. false; malloc = λ n. true }
