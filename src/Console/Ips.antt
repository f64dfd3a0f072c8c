-- ===== src/Console/Ips.antt =====
-- src/modules/mgr/mgr_ip.cpp: the pool of addresses.
pub mod Range
use evcp.Base.{
  ℕ, zero, suc, ◌+◌, ◌*◌, [], ◌∷◌, ◌++◌, List, Option, none, some, Bool, true, false, not, Bytes,
  codes, beq, ◌==◌, ltb, if◌then◌else◌, ◌&&◌, ◌||◌,
}
use evcp.Base.Maps.{StrMap, at}
use evcp.Connection.Headers.{c_str}
use evcp.Connection.Process.{int_text}
use evcp.Database.{Row, Result, each_row, num_rows}
use evcp.Console.State.{
  Services, Asked, Conn, Next, Round, unfinished, cycle, leave, finish_request, same_handler,
  cycles, vars, set_state, set_status, set_header, compile, fill, query, cell, element, counted,
  doc_start, show_page, error_500, tpl_goto, says,
}
use evcp.Console.Texts.Ips.{ips_query, ips_head, ips_tail, ip_form}

-- One row of the list
abbrev pub ip_text_of : Row → Bytes
ip_text_of r =
    codes "<elem>"
    ++ element (codes "ipaddr") (cell 0 r)
    ++ element (codes "created") (cell 1 r)
    ++ element (codes "avail") (cell 2 r)
    ++ codes "</elem>"

unfoldable pub ip_row : Row → Bytes → Bytes
ip_row r myxml = myxml ++ ip_text_of r

-- The text of the page, and what is left of `c`
unfoldable pub ips_page : Services → Conn → Bytes × Conn
unfolding compile query ip_row
ips_page sv c =
    let ready =
      compile sv (set_header (codes "Content-Type") (codes "text/html") (set_status 200 c)) in
    let (q, asked) = query sv ips_query ready in
    let rows = each_row q.rows ip_row q (doc_start ++ ips_head) in (rows ++ ips_tail, asked)

-- `case 1`
unfoldable pub show_ips : Services → Conn → Round
unfolding ips_page show_page
show_ips sv c = show_page sv (ips_page sv c).0 (ips_page sv c).1

-- `case 2`
unfoldable pub delete_ip : Services → StrMap → Conn → Round
unfolding query
delete_ip sv M c =
    let text =
      codes "DELETE FROM ip_pool WHERE ip_addr='"
      ++ sv.addslashes (at (codes "elid") M)
      ++ codes "'" in
    leave same_handler (set_state 1 (query sv text c).1)

-- A round of `mgrIpList`
unfoldable pub ip_list : Services → Asked → Conn → Round
unfolding show_ips delete_ip
ip_list sv q c =
    let M = vars q.get_vars in
    if c.hndstate == 0
    then cycle (set_state (if says M (codes "act") (codes "ipdel") then 2 else 1) c)
    else if c.hndstate == 1
    then show_ips sv c
    else if c.hndstate == 2
    then delete_ip sv M c
    else if c.hndstate == 10
    then error_500 c
    else cycle c

-- `cip1` and `cip2`
pub record Ip : Type 0 where
  pub a : ℕ
  pub b : ℕ
  pub c : ℕ
  pub d : ℕ

-- The four numbers, unless one of them is below 0 or above 255. `atoi` gives the 32 bits of an int.
unfoldable pub numbers : Services → List Bytes → Option Ip
numbers sv (a ∷ b ∷ c ∷ d ∷ []) =
    let ip : Ip = record { a = sv.atoi a; b = sv.atoi b; c = sv.atoi c; d = sv.atoi d } in
    if ltb 255 ip.a || (ltb 255 ip.b || (ltb 255 ip.c || ltb 255 ip.d)) then none else some ip
numbers sv _ = none

-- `while(cip1[0] < cip2[0] || …)`
unfoldable pub goes_on : Ip → Ip → Bool
goes_on x y = ltb x.a y.a || (ltb x.b y.b || (ltb x.c y.c || ltb x.d y.d))

-- `for(ic = 3; ic >=0; ic--)`
unfoldable pub next_ip : Ip → Ip
next_ip x =
    if ltb x.d 255
    then record x { d = x.d + 1 }
    else if ltb x.c 255
    then record x { c = x.c + 1; d = 0 }
    else if ltb x.b 255
    then record x { b = x.b + 1; c = 0; d = 0 }
    else if ltb x.a 255
    then record { a = x.a + 1; b = 0; c = 0; d = 0 }
    else record { a = 0; b = 0; c = 0; d = 0 }

-- `snprintf(cm,16,"%d.%d.%d.%d",…)`, which 15 characters fit
unfoldable pub ip_text : Ip → Bytes
unfolding int_text
ip_text x =
    int_text x.a
    ++ codes "."
    ++ int_text x.b
    ++ codes "."
    ++ int_text x.c
    ++ codes "."
    ++ int_text x.d

abbrev pub insert_ip_text : Services → Bytes → Bytes
insert_ip_text sv ip =
    codes "INSERT INTO ip_pool (ip_addr,ip_added,ip_avail) VALUES ('"
    ++ sv.addslashes ip
    ++ codes "',datetime('now'),'1')"

-- The body of the loop, for an address that has been counted up
unfoldable pub insert_ip : Services → Ip → Conn → Conn
unfolding query fill ip_text
insert_ip sv x c =
    fill sv (codes "<br />\n") (fill sv (ip_text x) (query sv (insert_ip_text sv (ip_text x)) c).1)

-- The loop, in rounds
unfoldable pub insert_range : ℕ → Services → Ip → Ip → Conn → Option Conn
unfolding goes_on next_ip insert_ip
insert_range zero sv x y c = none
insert_range (suc n) sv x y c = elim (goes_on x y) [
  | false ↦ some c
  | true ↦ insert_range n sv (next_ip x) y (insert_ip sv (next_ip x) c)
]

-- `//multi`
unfoldable pub insert_many : ℕ → Services → StrMap → Conn → Round
unfolding numbers insert_range
insert_many n sv M c = elim (numbers sv (sv.explode (c_str (at (codes "multistart") M)) b'.')) [
  | none ↦ cycle (set_state 1 c)
  | some x ↦ elim (numbers sv (sv.explode (c_str (at (codes "multiend") M)) b'.')) [
    | none ↦ cycle (set_state 1 c)
    | some y ↦ elim (insert_range n sv x y c) [
      | none ↦ unfinished
      | some c' ↦ leave finish_request c'
    ]
  ]
]

-- `case 2`
unfoldable pub insert_ips : ℕ → Services → StrMap → Conn → Round
unfolding insert_many query fill
insert_ips n sv M c =
    let single = at (codes "singleip") M in
    if not (beq single [])
    then leave finish_request
        (fill sv (codes "IP Added OK") (query sv (insert_ip_text sv single) c).1)
    else if not (beq (at (codes "multistart") M) []) && not (beq (at (codes "multiend") M) [])
    then insert_many n sv M c
    else cycle (set_state 1 c)

-- A round of `mgrIpAdd`, with `n` rounds for its loop
unfoldable pub ip_add : ℕ → Services → Asked → Conn → Round
unfolding compile show_page insert_ips
ip_add n sv q c =
    let M = vars q.post_vars in
    if c.hndstate == 0
    then cycle (
        set_state (if says M (codes "sok") (codes "ok") then 2 else 1)
          (compile sv (set_header (codes "Content-Type") (codes "text/html") (set_status 200 c))))
    else if c.hndstate == 1
    then show_page sv (doc_start ++ ip_form) c
    else if c.hndstate == 2
    then insert_ips n sv M c
    else if c.hndstate == 500
    then error_500 c
    else cycle c
