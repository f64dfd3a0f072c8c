-- ===== src/Console/Urls/Rows.antt =====
-- src/modules/mgr: the rows of the pages, as SQLite gives them.
use evcp.Base.{
  ℕ, [], ◌∷◌, ◌++◌, List, Option, true, Bytes, ◌≡◌, sym, ap, ◌∙◌, append_assoc, append-nil, length,
  codes,
}
use evcp.Base.Maps.{at}
use evcp.Connection.Headers.{c_str}
use evcp.Database.{Row, Result, statement, Allocator, db_query, each_row}
use evcp.Database.Cursor.{Represents, fold_rows, each_row-Represents, length-Represents}
use evcp.Database.Query.{complete, AreWide, query-Represents}
use evcp.Console.State.{Services, Conn, query, doc_start}
use evcp.Console.Texts.Urls.{urls_query, urls_start, urls_head, urls_tail}
use evcp.Console.Urls.{url_row, url_text_of, urls_page}

-- The texts of the rows behind one another
abbrev pub row_texts : (Row → Bytes) → List Row → Bytes
row_texts text [] = []
row_texts text (r ∷ more) = text r ++ row_texts text more

-- The loop's body adds the row's text to the page.
abbrev pub appends : (Row → Bytes) → Row → Bytes → Bytes
appends text r s = s ++ text r

fold_rows-appends :
    (text : Row → Bytes) (rows : List Row) (s : Bytes)
    → fold_rows (appends text) rows s ≡ s ++ row_texts text rows
fold_rows-appends text [] s = sym (append-nil s)
fold_rows-appends text (r ∷ more) s =
    fold_rows-appends text more (s ++ text r) ∙ append_assoc s (text r) (row_texts text more)

-- The loop over a query's result adds the text of every row in front of the first one with a NULL.
pub each_row-texts :
    (a : Allocator) (names : Row) (rows : List (List (Option Bytes))) (text : Row → Bytes)
    (s : Bytes)
    → ((n : ℕ) → a.realloc n ≡ true)
    → ((n : ℕ) → a.malloc n ≡ true)
    → AreWide (length names) rows
    → (q : Result) → q ≡ db_query a (statement names rows 0 ∷ [])
    → each_row q.rows (appends text) q s ≡ s ++ row_texts text (complete rows)
each_row-texts a names rows text s re ma w q e =
    let pending : Represents q (complete rows) = rw e (query-Represents a re ma names rows w).0 in
    each_row-Represents q.rows (appends text) q (complete rows) s pending
      (length-Represents q (complete rows) pending)
    ∙ fold_rows-appends text (complete rows) s

-- When the allocator gives whatever it is asked for, and SQLite runs the query to its end, with the code 0
-- and rows as wide as its names, the list of pages that `mgrSiteUrls` builds holds one `<elem>` for
-- each row, in its order, up to the first row that has a NULL.
pub urls_page-rows :
    (sv : Services) (names : Row) (rows : List (List (Option Bytes))) (c : Conn)
    → ((n : ℕ) → sv.allocator.realloc n ≡ true)
    → ((n : ℕ) → sv.allocator.malloc n ≡ true)
    → AreWide (length names) rows
    → sv.sqlite c.queries (c_str urls_query) ≡ statement names rows 0 ∷ []
    → (M : List (Bytes × Bytes))
    → (urls_page sv M c).0
      ≡ ((doc_start ++ urls_start ++ at (codes "elid") M ++ urls_head)
          ++ row_texts url_text_of (complete rows))
        ++ urls_tail
unfolding urls_page query url_row
urls_page-rows sv names rows c re ma w given M =
    ap (λ (s : Bytes). s ++ urls_tail)
      (each_row-texts sv.allocator names rows url_text_of _ re ma w _
        (ap (db_query sv.allocator) given))
