-- ===== src/Console/Entry.antt =====
-- src/modules/mgr/mgr_acc.cpp: who may use the console, its first page, and the way in and out.
use evcp.Base.{
  ℕ, ◌+◌, ◌-◌, ◌^◌, [], ◌∷◌, ◌++◌, Option, none, some, not, Bytes, codes, beq, ◌==◌, ltb,
  if◌then◌else◌, ◌||◌, drop, length,
}
use evcp.Base.Maps.{at}
use evcp.Connection.Headers.{c_str}
use evcp.Connection.Mime.{strncmp}
use evcp.Database.{Row, fetch_row, num_rows}
use evcp.Session.{Session, check, accepted, no_cookie, deletes_cookie, register, kill, cookie_set}
use evcp.Console.State.{
  Services, Asked, Conn, Round, leave, null_pointer, finish_request, set_status, set_header,
  compile, fill, query, cell,
}
use evcp.Console.Texts.Entry.{desktop_page, login_page}

-- A page that is not of `modules.xsl`: `mgrDesctop` and `mgrLogin`
unfoldable pub entry_page : Services → Bytes → Bytes → Conn → Round
unfolding compile fill
entry_page sv template myxml c = elim (sv.transform template (c_str myxml)) [
  | none ↦ leave finish_request (set_status 500 c)
  | some text ↦
      let ready =
        compile sv (set_header (codes "Content-Type") (codes "text/html") (set_status 200 c)) in
      leave finish_request (fill sv (c_str text) ready)
]

-- `mgrDesctop`
unfoldable pub desktop : Services → Conn → Round
unfolding entry_page
desktop sv c = entry_page sv (codes "/home/dev/cpp/docroot/sirius/desktop.xsl") desktop_page c

-- `mgrLogin`
unfoldable pub login : Services → Conn → Round
unfolding entry_page
login sv c = entry_page sv (codes "/home/dev/cpp/docroot/sirius/login.xsl") login_page c

-- `sessionKill(c)`, the cookie emptied, and the way to the first page
abbrev pub logged_out : Session → Conn → Conn
logged_out s c =
    let killed = record c {
      sessions = kill s.id c.sessions;
      resp = record c.resp { h_out = cookie_set (codes "SPSID") [] c.resp.h_out };
    } in
    set_status 302 (set_header (codes "Location") (codes "/mgr/") killed)

-- `mgrLogout`
unfoldable pub logout : Conn → Round
logout c = elim c.sess [ none ↦ null_pointer | some s ↦ leave finish_request (logged_out s c) ]

-- `mgrKeepAlive`
unfoldable pub keep_alive : Services → Conn → Round
unfolding compile
keep_alive sv c = leave finish_request (compile sv (set_status 200 c))

-- `a.find(':')`, with what stands in front of it and behind it
unfoldable pub split_colon : Bytes → Option (Bytes × Bytes)
split_colon [] = none
split_colon (x ∷ xs) =
    let rest = split_colon xs in
    if x == b':' then some ([], xs) else elim rest [ none ↦ none | some p ↦ some (x ∷ p.0, p.1) ]

-- `atoi`'s int as an `unsigned long`
abbrev pub to_long : ℕ → ℕ
to_long n = if ltb n (2 ^ 31) then n else n + (2 ^ 64 - 2 ^ 32)

-- The text of the query for a user
abbrev pub user_text : Services → Bytes → Bytes → Bytes
user_text sv b d =
    codes "SELECT user_id, vn_id, user_primary, user_god, user_privs FROM users WHERE userLogin='"
    ++ sv.addslashes b
    ++ codes "' AND userPasswd='"
    ++ sv.addslashes d
    ++ codes "' "

-- What `mgrAuth` returns: 1 or 0; or `substr` throws, or the numbers of `rand` do not give a new id.
pub data Authentication : Type 0 where
  authorised refused : Conn → Authentication
  throws endless : Authentication

-- The name and the password that a request gives, and the string `a` then, or that it gives none
pub data Credentials : Type 0 where
  given : Bytes → Bytes → Bytes → Credentials
  missing out_of_range : Credentials

-- The header `Authorization`, which is not empty
unfoldable pub basic_credentials : Services → Bytes → Credentials
unfolding strncmp split_colon
basic_credentials sv a =
    let decoded = sv.base64_decode (drop 6 a) in
    if strncmp 5 (codes "Basic") (c_str a)
    then missing
    else if ltb (length a) 6
    then out_of_range
    else elim (split_colon decoded) [ none ↦ missing | some p ↦ given p.0 p.1 decoded ]

unfoldable pub credentials : Services → Asked → Credentials
unfolding basic_credentials
credentials sv q =
    let a = at (codes "Authorization") q.headers in
    if not (beq a []) then basic_credentials sv a else elim q.post_vars [
      | none ↦ missing
      | some m ↦ given (at (codes "username") m) (at (codes "password") m) []
    ]

-- `sessionRegister(c,atoi(r[0]),atoi(r[1]),a.c_str(),…)`
unfoldable pub register_user : Services → Asked → Bytes → Row → Conn → Authentication
unfolding register
register_user sv q a r c =
    elim (register sv.ids sv.now (to_long (sv.atoi (cell 0 r))) (to_long (sv.atoi (cell 1 r)))
      (c_str a) q.peer c.sessions c.resp.h_out) [
        | none ↦ endless
        | some done ↦ authorised (record c {
          sessions = done.sessions;
          sess = some done.sess;
          resp = record c.resp { h_out = done.h_out };
        })
      ]

-- The user of that name and password. A result that has rows gives one.
unfoldable pub find_user : Services → Asked → Bytes → Bytes → Bytes → Conn → Authentication
unfolding register_user query num_rows fetch_row
find_user sv q b d a c =
    let (found, c') = query sv (user_text sv b d) c in
    if beq b [] || beq d []
    then refused c
    else if num_rows found == 0
    then refused c'
    else elim (fetch_row found).0 [ none ↦ refused c' | some r ↦ register_user sv q a r c' ]

-- `mgrAuth` without a session
unfoldable pub log_in : Services → Asked → Conn → Authentication
unfolding credentials find_user
log_in sv q c = elim (credentials sv q) [
  | missing ↦ refused c
  | out_of_range ↦ throws
  | given b d a ↦ find_user sv q b d a c
]

-- `mgrAuth`
unfoldable pub auth : Services → Asked → Conn → Authentication
unfolding check log_in
auth sv q c = elim (check sv.now q.sid q.headers c.sessions c.resp.h_out) [
  | accepted s m ↦ authorised (record c { sessions = m; sess = some s })
  | no_cookie ↦ log_in sv q c
  | deletes_cookie h_out ↦ log_in sv q (record c { resp = record c.resp { h_out = h_out } })
]
