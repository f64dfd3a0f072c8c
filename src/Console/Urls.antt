-- ===== src/Console/Urls.antt =====
-- src/modules/mgr/mgr_siteurls.cpp: the pages of the sites.
pub mod Rows
use evcp.Base.{
  ℕ, ◌+◌, [], ◌∷◌, ◌++◌, List, Option, none, some, Bool, true, false, not, Bytes, codes, beq, ◌==◌,
  ltb, if◌then◌else◌, ◌&&◌, ◌||◌,
}
use evcp.Base.Maps.{StrMap, at}
use evcp.Connection.Headers.{c_str}
use evcp.Connection.Process.{int_text}
use evcp.Database.{Row, Result, each_row, num_rows}
use evcp.Console.State.{
  Services, Asked, Conn, Next, Round, cycle, leave, finish_request, same_handler, cycles, vars,
  set_state, set_status, set_header, compile, fill, query, cell, element, counted, doc_start,
  show_page, error_500, tpl_goto, says, option_row,
}
use evcp.Console.Sites.{insert_site}
use evcp.Console.Texts.Urls.{urls_query, urls_start, urls_head, urls_tail, url_form}

-- One row of the list
abbrev pub url_text_of : Row → Bytes
url_text_of r =
    codes "<elem>"
    ++ element (codes "spid") (cell 0 r)
    ++ element (codes "purl") (cell 1 r)
    ++ element (codes "pstatus") (cell 2 r)
    ++ element (codes "phttpstatus") (cell 3 r)
    ++ element (codes "ploadtime") (cell 4 r)
    ++ element (codes "plastcheck") (cell 5 r)
    ++ element (codes "psize") (cell 6 r)
    ++ codes "</elem>"

unfoldable pub url_row : Row → Bytes → Bytes
url_row r myxml = myxml ++ url_text_of r

-- The text of the page, and what is left of `c`
unfoldable pub urls_page : Services → StrMap → Conn → Bytes × Conn
unfolding compile query url_row
urls_page sv M c =
    let (q, asked) = query sv urls_query (compile sv (set_status 200 c)) in
    let rows =
      each_row q.rows url_row q (doc_start ++ urls_start ++ at (codes "elid") M ++ urls_head) in
    (rows ++ urls_tail, asked)

-- `case 1`
unfoldable pub show_urls : Services → StrMap → Conn → Round
unfolding urls_page show_page
show_urls sv M c = show_page sv (urls_page sv M c).0 (urls_page sv M c).1

-- The text of `case 2`
abbrev pub delete_url_text : Services → StrMap → Bytes
delete_url_text sv P =
    codes "DELETE FROM site_pages WHERE pageId='"
    ++ sv.addslashes (at (codes "elid") P)
    ++ codes "'"

-- `case 2`
unfoldable pub delete_url : Services → StrMap → Conn → Round
unfolding query
delete_url sv P c = leave same_handler (set_state 1 (query sv (delete_url_text sv P) c).1)

-- A round of `mgrSiteUrls`
unfoldable pub url_list : Services → Asked → Conn → Round
unfolding show_urls delete_url
url_list sv q c =
    let P = vars q.post_vars in
    if c.hndstate == 0
    then cycle (set_state (if says P (codes "act") (codes "siteurldel") then 2 else 1) c)
    else if c.hndstate == 1
    then show_urls sv (vars q.get_vars) c
    else if c.hndstate == 2
    then delete_url sv P c
    else if c.hndstate == 10
    then error_500 c
    else cycle c

-- The text of the page, and what is left of `c`
unfoldable pub url_form_page : Services → Conn → Bytes × Conn
unfolding query option_row
url_form_page sv c =
    let (q, asked) =
      query sv (codes "SELECT i.siteId, i.siteDomain FROM sites i  ORDER BY siteDomain") c in
    let rows = each_row q.rows option_row q (doc_start ++ url_form) in
    (rows ++ codes "</slist>" ++ codes "</doc>", asked)

-- `case 1`
unfoldable pub show_form : Services → Conn → Round
unfolding url_form_page show_page
show_form sv c = show_page sv (url_form_page sv c).0 (url_form_page sv c).1

-- A round of `mgrSiteUrlAdd`
unfoldable pub url_add : Services → Asked → Conn → Round
unfolding compile show_form insert_site
url_add sv q c =
    let M = vars q.post_vars in
    if c.hndstate == 0
    then cycle (
        set_state (if says M (codes "sok") (codes "ok") then 2 else 1)
          (compile sv (set_status 200 c)))
    else if c.hndstate == 1
    then show_form sv c
    else if c.hndstate == 2
    then insert_site sv M c
    else if c.hndstate == 500
    then error_500 c
    else cycle c
