-- ===== src/Console/Dispatch/Access.antt =====
-- src/modules/mgr/mgr.cpp: who reaches a command of the console.
use evcp.Base.{[], Bytes, ◌≡◌, ◌≢◌, codes}
use evcp.Connection.Headers.{c_str}
use evcp.Database.{db_query, num_rows}
use evcp.Session.{Session, Sessions, check, accepted}
use evcp.Console.State.{Services, Asked, Conn, set_state, set_header}
use evcp.Console.Entry.{given, credentials, user_text}

-- A request proves who asks: its cookie names a session that is kept, or it gives a name and a password,
-- neither of them empty, that the query for users finds a row for.
pub data Admits (sv : Services) (q : Asked) (c : Conn) : Type 0 where
  by_session :
      (s : Session) (m : Sessions)
      → check sv.now q.sid q.headers c.sessions c.resp.h_out ≡ accepted s m
      → Admits sv q c
  by_password :
      (b d a : Bytes)
      → credentials sv q ≡ given b d a
      → b ≢ []
      → d ≢ []
      → num_rows (db_query sv.allocator (sv.sqlite c.queries (c_str (user_text sv b d)))) ≢ 0
      → Admits sv q c

-- `c` as `mgrAuth` is given it.
abbrev pub prepared : Conn → Conn
prepared c = set_header (codes "Content-Type") (codes "text/html; charset=UTF-8") (set_state 0 c)
