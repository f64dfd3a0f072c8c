-- ===== src/Database/Setup.antt =====
-- src/core/sp_firstrun.cpp: what the server asks of its database when it starts.
pub mod Asked
use evcp.Base.{
  ℕ, zero, suc, [], ◌∷◌, ◌++◌, List, Option, none, some, Bool, true, Bytes, codes, ◌==◌,
  if◌then◌else◌,
}
use evcp.Connection.Headers.{c_str}
use evcp.Database.{Row, Result, Prepared, Allocator, db_query, num_rows, each_row}
use evcp.Database.Statements.{
  create_vns, create_vns_ips, create_remoteoslist, create_users, create_site_groups, create_sites,
  create_site_pages, insert_admin, insert_admin1, insert_admin2, insert_admin3, create_ip_pool,
  select_users,
}

-- SQLite on a text after the texts before it, and the memory
pub record Engine : Type 0 where
  pub sqlite : List Bytes → Bytes → List Prepared
  pub allocator : Allocator

-- `db_query(text)`: the result, and the texts that have been asked, the oldest first
unfoldable pub ask : Engine → Bytes → List Bytes → Result × List Bytes
unfolding db_query
ask e text asked = (db_query e.allocator (e.sqlite asked (c_str text)), asked ++ c_str text ∷ [])

-- Statements whose results are not looked at
unfoldable pub ask_all : Engine → List Bytes → List Bytes → List Bytes
unfolding ask
ask_all e [] asked = asked
ask_all e (text ∷ more) asked = ask_all e more (ask e text asked).1

abbrev pub statements : List Bytes
statements =
    create_vns ∷ create_vns_ips ∷ create_remoteoslist ∷ create_users ∷ create_site_groups
    ∷ create_sites ∷ create_site_pages ∷ insert_admin ∷ insert_admin1 ∷ insert_admin2
    ∷ insert_admin3 ∷ create_ip_pool ∷ []

-- `r[1]`
abbrev pub login_of : Row → Bytes
login_of [] = []
login_of (a ∷ []) = []
login_of (a ∷ b ∷ more) = b

-- "SELECT * FROM users WHERE userLogin='"+r[1]+"'"
abbrev pub user_query : Row → Bytes
user_query r = codes "SELECT * FROM users WHERE userLogin='" ++ (c_str (login_of r) ++ codes "'")

-- One user, whose row is only printed
abbrev pub ask_user : Engine → Row → List Bytes → List Bytes
ask_user e r asked = (ask e (user_query r) asked).1

-- `firsrunCheckAll`
unfoldable pub check_all : Engine → List Bytes → Bool × List Bytes
unfolding ask_all ask num_rows
check_all e asked =
    let (q, selected) = ask e select_users (ask_all e statements asked) in
    (true, if num_rows q == 0 then selected else each_row q.rows (ask_user e) q selected)
