-- ===== src/Session.antt =====
-- src/core/sp_session.cpp: the sessions of users who have logged in, found by a cookie.
pub mod Ids
pub mod Lifetime
use evcp.Base.{
  ℕ, zero, suc, ◌+◌, ◌-◌, ◌*◌, ◌/◌, ◌%◌, ◌^◌, [], ◌∷◌, ◌++◌, List, Option, none, some, Bool, not,
  Bytes, ltb, ◌==◌, within, length, beq, if◌then◌else◌, codes,
}
use evcp.Base.Maps.{StrMap, insert, at}

-- One hexadecimal digit.
unfoldable pub nibble : ℕ → Option ℕ
nibble c =
    if within b'0' b'9' c
    then some (c - b'0')
    else if within b'a' b'f' c
    then some (c - b'a' + 10)
    else if within b'A' b'F' c
    then some (c - b'A' + 10)
    else none

-- `i << (--cpos*8)`
abbrev shifted : ℕ → ℕ → ℕ
shifted i cpos = i * 256 ^ (cpos - 1)

-- The two digits of a byte.
abbrev pub pair_value : ℕ → ℕ → Option ℕ
pair_value a b = elim (nibble a) [
  | none ↦ none
  | some hi ↦ elim (nibble b) [ none ↦ none | some lo ↦ some (hi * 16 + lo) ]
]

-- `for(p=sid.c_str(); …; p++)`, which takes two characters a round
unfoldable pub sid_loop : ℕ → ℕ → Bytes → Option ℕ
sid_loop cpos lsid [] = some lsid
sid_loop cpos lsid (a ∷ []) = none
sid_loop cpos lsid (a ∷ b ∷ rest) = elim (pair_value a b) [
  | none ↦ none
  | some i ↦ sid_loop (cpos - 1) (lsid + shifted i cpos) rest
]

-- The id that a cookie names: an even number of digits, eight at most.
unfoldable pub decode_sid : Bytes → Option ℕ
decode_sid sid =
    let n = length sid in
    if not (n % 2 == 0) then none else if ltb 4 (n / 2) then none else sid_loop (n / 2) 0 sid

-- `sp_session_s`, less the fields that nothing sets
pub record Session : Type 0 where
  pub id : ℕ
  pub ip : Bytes
  pub started : ℕ
  pub lastuse : ℕ
  pub user_id : ℕ
  pub user_vn_id : ℕ
  pub user_login : Bytes

-- `sessionMap`
pub data Sessions : Type 0 where
  empty : Sessions
  entry : Session → Sessions → Sessions

-- `sessionMap[i]`, `none` for NULL. (A null entry that `operator[]` adds reads as an absent one.)
unfoldable pub find : ℕ → Sessions → Option Session
find i empty = none
find i (entry s m) = if s.id == i then some s else find i m

-- `sessionKill(u_long)`: `sessionMap.erase(sid)`
unfoldable pub kill : ℕ → Sessions → Sessions
kill i empty = empty
kill i (entry s m) = let rest = kill i m in if s.id == i then rest else entry s rest

-- `sessionMap[lsid]->lastuse = now`
unfoldable pub touch : ℕ → ℕ → Sessions → Sessions
touch i now empty = empty
touch i now (entry s m) =
    if s.id == i then entry (record s { lastuse = now }) m else entry s (touch i now m)

unfoldable pub hex_digit : ℕ → ℕ
hex_digit d = if ltb d 10 then b'0' + d else b'a' + d - 10

-- `snprintf(…, "%x", n)` for an `unsigned int`: hexadecimal digits, with no zeros in front
unfoldable pub hex_text : ℕ → ℕ → Bytes
hex_text zero n = []
hex_text (suc width) n =
    let front = hex_text width (n / 16) in
    if ltb n 16 then hex_digit n ∷ [] else front ++ hex_digit (n % 16) ∷ []

-- `%x` prints the low 32 bits.
unfoldable pub sid_of : ℕ → Bytes
sid_of id = hex_text 8 (id % 2 ^ 32)

-- `cookieSet(c, "SPSID", sid)`, as the value of the header `Set-Cookie`
unfoldable pub cookie_set : Bytes → Bytes → StrMap → StrMap
cookie_set name sid h_out =
    insert (codes "Set-Cookie") (name ++ (b'=' ∷ sid) ++ codes "; expires=0; path=/;") h_out

-- `cookieDel`: with a `Host` header the domain is named
unfoldable pub cookie_del : Bytes → StrMap → StrMap → StrMap
unfolding beq
cookie_del name headers h_out =
    let host = at (codes "Host") headers in
    let gone = name ++ codes "=; expires=Mon, 01-Jan-2001 00:00:00 GMT; path=/;" in
    insert (codes "Set-Cookie") (if beq host [] then gone else gone ++ codes " domain=" ++ host)
      h_out

-- `do s->id = rand() + rand() * 100000; while(sessionMap[s->id]!=NULL)`: the first of the ids that
-- `rand` gives which no session has
unfoldable pub fresh_id : List ℕ → Sessions → Option ℕ
unfolding find
fresh_id [] m = none
fresh_id (i ∷ is) m = elim (find i m) [ none ↦ some i | some s ↦ fresh_id is m ]

-- What `sessionRegister` leaves: the sessions, the one of the connection, and the answer's headers.
pub record Registered : Type 0 where
  pub sessions : Sessions
  pub sess : Session
  pub h_out : StrMap

-- The session of a new id, its fields filled, and the cookie set
unfoldable pub registered : ℕ → ℕ → ℕ → ℕ → Bytes → Bytes → Sessions → StrMap → Registered
unfolding sid_of cookie_set
registered i now uid vnid uname peer m h_out =
    let s : Session = record {
      id = i;
      ip = peer;
      started = now;
      lastuse = now;
      user_id = uid;
      user_vn_id = vnid;
      user_login = uname;
    } in
    record { sessions = entry s m; sess = s; h_out = cookie_set (codes "SPSID") (sid_of i) h_out }

-- `sessionRegister`; `none` where the loop for an id needs more of `rand`
unfoldable pub register : List ℕ → ℕ → ℕ → ℕ → Bytes → Bytes → Sessions → StrMap → Option Registered
unfolding fresh_id
register ids now uid vnid uname peer m h_out = elim (fresh_id ids m) [
  | none ↦ none
  | some i ↦ some (registered i now uid vnid uname peer m h_out)
]

-- How `sessionCheck` ends: `accepted` with the session and the sessions as they are then, or refused,
-- with or without the cookie deleted in the answer.
pub data Check : Type 0 where
  accepted : Session → Sessions → Check
  no_cookie : Check
  deletes_cookie : StrMap → Check

-- `sessionCheck`, for the value of the cookie `SPSID`
unfoldable pub check : ℕ → Bytes → StrMap → Sessions → StrMap → Check
unfolding beq
check now sid headers m h_out = if beq sid [] then no_cookie else elim (decode_sid sid) [
  | none ↦ deletes_cookie (cookie_del (codes "SPSID") headers h_out)
  | some i ↦ elim (find i m) [
    | none ↦ deletes_cookie (cookie_del (codes "SPSID") headers h_out)
    | some s ↦ accepted (record s { lastuse = now }) (touch i now m)
  ]
]
