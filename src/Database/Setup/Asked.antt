-- ===== src/Database/Setup/Asked.antt =====
-- src/core/sp_firstrun.cpp: the texts that SQLite is given.
use evcp.Base.{
  ℕ, ◌≡◌, refl, sym, ap, ◌∙◌, [], ◌∷◌, ◌++◌, List, Option, Bool, true, Bytes, append_assoc,
  append-nil, length, arith, map, ◌==◌, if◌then◌else◌, Bool-cases, subst, inl, inr,
}
use evcp.Connection.Headers.{c_str}
use evcp.Database.{Row, Result, statement, db_query, num_rows, each_row}
use evcp.Database.Cursor.{
  Represents, empty, table, fold_rows, each_row-Represents, length-Represents,
}
use evcp.Database.Query.{complete, AreWide, query-Represents}
use evcp.Database.Setup.{Engine, ask, ask_all, statements, user_query, ask_user, check_all}
use evcp.Database.Statements.{select_users}

ask_all-texts :
    (e : Engine) (texts asked : List Bytes) → ask_all e texts asked ≡ asked ++ map c_str texts
unfolding ask_all
ask_all-texts e [] asked = sym (append-nil asked)
ask_all-texts e (t ∷ more) asked =
    ask_all-texts e more (asked ++ c_str t ∷ [])
    ∙ append_assoc asked (c_str t ∷ []) (map c_str more)

abbrev asked_of : Row → Bytes
asked_of r = c_str (user_query r)

fold_rows-asks :
    (e : Engine) (rows : List Row) (asked : List Bytes)
    → fold_rows (ask_user e) rows asked ≡ asked ++ map asked_of rows
unfolding ask
fold_rows-asks e [] asked = sym (append-nil asked)
fold_rows-asks e (r ∷ more) asked =
    fold_rows-asks e more (asked ++ asked_of r ∷ [])
    ∙ append_assoc asked (asked_of r ∷ []) (map asked_of more)

-- A result that has no rows to give leaves the loop at once.
Represents-none :
    (q : Result) (pending : List Row) → Represents q pending → num_rows q ≡ 0 → pending ≡ []
unfolding num_rows
Represents-none q [] h z = refl
Represents-none q (row ∷ more) (empty r e) z = e
Represents-none q (row ∷ more) (table passed t h hs l r) z = absurd (ground (arith, r, l))

-- What follows the selection of the users
abbrev users_asked : Engine → Result → List Bytes → List Bytes
users_asked e q selected =
    if num_rows q == 0 then selected else each_row q.rows (ask_user e) q selected

users_asked-rows :
    (e : Engine) (q : Result) (pending : List Row) (selected : List Bytes)
    → Represents q pending
    → users_asked e q selected ≡ selected ++ map asked_of pending
users_asked-rows e q pending selected h = elim (Bool-cases (num_rows q == 0)) [
  | inl y ↦
      let no_rows = Represents-none q pending h (ground arith) in
      rw (y, no_rows) (sym (append-nil selected))
  | inr n ↦ rw n (
      each_row-Represents q.rows (ask_user e) q pending selected h (length-Represents q pending h)
      ∙ fold_rows-asks e pending selected)
]

-- Whatever has been asked before, and whatever SQLite made of it, a start of the server asks for the tables and the
-- first users, then for all users, and then once for each user that SQLite gives in front of the first row
-- with a NULL, in their order; and it says that all is well. It is so when the selection
-- runs to its end and the allocator gives what it is asked for.
pub check_all-asks :
    (e : Engine) (asked : List Bytes) (names : Row) (rows : List (List (Option Bytes)))
    → ((n : ℕ) → e.allocator.realloc n ≡ true)
    → ((n : ℕ) → e.allocator.malloc n ≡ true)
    → AreWide (length names) rows
    → e.sqlite (asked ++ map c_str statements) (c_str select_users) ≡ statement names rows 0 ∷ []
    → check_all e asked ≡ (
      true,
      ((asked ++ map c_str statements) ++ c_str select_users ∷ []) ++ map asked_of (complete rows),
    )
unfolding check_all ask
check_all-asks e asked names rows re ma w given =
    let before = asked ++ map c_str statements in
    ap after (ask_all-texts e statements asked)
    ∙ ap (λ (p : List Bytes). (true, p))
        (users_asked-rows e (db_query e.allocator (e.sqlite before (c_str select_users)))
          (complete rows) (before ++ c_str select_users ∷ [])
          (subst (λ x. Represents (db_query e.allocator x) (complete rows)) (sym given)
            (query-Represents e.allocator re ma names rows w).0))
  where
    after : List Bytes → Bool × List Bytes
    after texts = (
      true,
      users_asked e (db_query e.allocator (e.sqlite texts (c_str select_users)))
          (texts ++ c_str select_users ∷ []),
    )
