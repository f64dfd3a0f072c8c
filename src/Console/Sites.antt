-- ===== src/Console/Sites.antt =====
-- src/modules/mgr/mgr_sites.cpp: the sites.
use evcp.Base.{ℕ, [], ◌++◌, Bool, not, Bytes, codes, beq, ◌==◌, if◌then◌else◌, ◌&&◌}
use evcp.Base.Maps.{StrMap, at}
use evcp.Connection.Headers.{c_str}
use evcp.Database.{Row, each_row}
use evcp.Console.State.{
  Services, Asked, Conn, Round, cycle, leave, finish_request, same_handler, vars, set_state,
  set_status, compile, query, cell, element, counted, doc_start, show_page, error_500, tpl_goto,
  says, option_row,
}
use evcp.Console.Texts.Sites.{sites_query, sites_head, sites_tail, site_form}

-- One row of the list, with the two numbers that are queried for it
unfoldable pub site_row : Services → Row → Bytes × Conn → Bytes × Conn
unfolding counted
site_row sv r (myxml, c) =
    let start =
      myxml
      ++ codes "<elem>"
      ++ element (codes "sid") (cell 0 r)
      ++ element (codes "sdomain") (cell 1 r)
      ++ element (codes "surl") (cell 2 r)
      ++ element (codes "sstatus") (cell 3 r)
      ++ element (codes "shttpstatus") (cell 4 r)
      ++ element (codes "sloadtime") (cell 5 r)
      ++ element (codes "slastcheck") (cell 6 r)
      ++ element (codes "gname") (cell 7 r) in
    let pages =
      counted sv (codes "pagecount")
        (codes "SELECT count(pageId) FROM sites_pages WHERE siteId=" ++ cell 0 r) (start, c) in
    let problems =
      counted sv (codes "problems")
        (codes "SELECT count(pageId) FROM sites_pages WHERE page_status!='0' AND siteId="
          ++ cell 0 r)
        pages in
    (problems.0 ++ codes "</elem>", problems.1)

-- The text of the page, and what is left of `c`
unfoldable pub sites_page : Services → Conn → Bytes × Conn
unfolding compile query site_row
sites_page sv c =
    let (q, asked) = query sv sites_query (compile sv (set_status 200 c)) in
    let rows = each_row q.rows (site_row sv) q (doc_start ++ sites_head, asked) in
    (rows.0 ++ sites_tail, rows.1)

-- `case 1`
unfoldable pub show_sites : Services → Conn → Round
unfolding sites_page show_page
show_sites sv c = show_page sv (sites_page sv c).0 (sites_page sv c).1

-- The texts of `case 2`
abbrev pub delete_site_text : Services → StrMap → Bytes
delete_site_text sv P =
    codes "DELETE FROM sites WHERE siteId='" ++ sv.addslashes (at (codes "elid") P) ++ codes "'"

abbrev pub delete_pages_text : Services → StrMap → Bytes
delete_pages_text sv P =
    codes "DELETE FROM site_pages WHERE siteId='"
    ++ sv.addslashes (at (codes "elid") P)
    ++ codes "'"

-- `case 2`
unfoldable pub delete_site : Services → StrMap → Conn → Round
unfolding query
delete_site sv P c =
    let site = (query sv (delete_site_text sv P) c).1 in
    leave same_handler (set_state 1 (query sv (delete_pages_text sv P) site).1)

-- A round of `mgrSiteList`
unfoldable pub site_list : Services → Asked → Conn → Round
unfolding show_sites delete_site
site_list sv q c =
    let P = vars q.post_vars in
    if c.hndstate == 0
    then cycle (set_state (if says P (codes "act") (codes "sitedel") then 2 else 1) c)
    else if c.hndstate == 1
    then show_sites sv c
    else if c.hndstate == 2
    then delete_site sv P c
    else if c.hndstate == 10
    then error_500 c
    else cycle c

-- The text of the page, and what is left of `c`
unfoldable pub site_form_page : Services → Conn → Bytes × Conn
unfolding query option_row
site_form_page sv c =
    let (q, asked) =
      query sv (codes "SELECT i.groupId, i.groupName FROM site_groups i  ORDER BY groupName") c in
    let rows = each_row q.rows option_row q (doc_start ++ site_form) in
    (rows ++ codes "</slist>" ++ codes "</doc>", asked)

-- `case 1`
unfoldable pub show_form : Services → Conn → Round
unfolding site_form_page show_page
show_form sv c = show_page sv (site_form_page sv c).0 (site_form_page sv c).1

-- The texts of `case 2`
abbrev pub insert_site_text : Services → StrMap → Bytes
insert_site_text sv M =
    codes "INSERT INTO sites (groupId,siteDomain,siteUrl) VALUES ('"
    ++ sv.addslashes (at (codes "gid") M)
    ++ codes "','"
    ++ sv.addslashes (at (codes "newdomain") M)
    ++ codes "','"
    ++ sv.addslashes (at (codes "newurl") M)
    ++ codes "')"

abbrev pub insert_page_text : Services → StrMap → ℕ → Bytes
insert_page_text sv M site =
    codes "INSERT INTO site_pages (siteId,pageUrl) VALUES ('"
    ++ c_str (sv.long_text site)
    ++ codes "','"
    ++ sv.addslashes (at (codes "newurl") M)
    ++ codes "')"

-- `(M["gid"] != "") && (M["newdomain"] != "") && (M["newurl"] != "")`
abbrev pub is_filled : StrMap → Bool
is_filled M =
    not (beq (at (codes "gid") M) [])
    && (not (beq (at (codes "newdomain") M) []) && not (beq (at (codes "newurl") M) []))

-- The site is inserted, and its first page if the site got a number.
abbrev pub inserted : Services → StrMap → Conn → Conn
inserted sv M c =
    let site = (query sv (insert_site_text sv M) c).1 in
    let new_site_id = sv.insert_id site.queries in
    if new_site_id == 0 then site else (query sv (insert_page_text sv M new_site_id) site).1

-- `case 2`
unfoldable pub insert_site : Services → StrMap → Conn → Round
unfolding query tpl_goto
insert_site sv M c =
    if is_filled M
    then leave finish_request (tpl_goto sv [] (codes "sites") (inserted sv M c))
    else cycle (set_state 1 c)

-- A round of `mgrSiteAdd`
unfoldable pub site_add : Services → Asked → Conn → Round
unfolding compile show_form insert_site
site_add sv q c =
    let M = vars q.post_vars in
    if c.hndstate == 0
    then cycle (
        set_state (if says M (codes "sok") (codes "ok") then 2 else 1)
          (compile sv (set_status 200 c)))
    else if c.hndstate == 1
    then show_form sv c
    else if c.hndstate == 2
    then insert_site sv M c
    else if c.hndstate == 500
    then error_500 c
    else cycle c
