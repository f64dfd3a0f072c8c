-- ===== src/Console/Groups.antt =====
-- src/modules/mgr/mgr_sitegroups.cpp: the groups of sites.
use evcp.Base.{[], ◌++◌, none, some, Bytes, codes, beq, ◌==◌, if◌then◌else◌}
use evcp.Base.Maps.{StrMap, at}
use evcp.Database.{Row, each_row}
use evcp.Console.State.{
  Services, Asked, Conn, Round, cycle, leave, finish_request, same_handler, vars, set_state,
  set_status, set_header, compile, query, cell, element, counted, doc_start, show_page, error_500,
  tpl_goto, says,
}
use evcp.Console.Texts.Groups.{groups_query, groups_head, groups_tail, group_form}

-- One row of the list, with the two numbers that are queried for it
unfoldable pub group_row : Services → Row → Bytes × Conn → Bytes × Conn
unfolding counted
group_row sv r (myxml, c) =
    let start =
      myxml
      ++ codes "<elem>"
      ++ element (codes "gid") (cell 0 r)
      ++ element (codes "gname") (cell 1 r) in
    let sites =
      counted sv (codes "sites")
        (codes "SELECT count(siteId) FROM sites WHERE groupId=" ++ cell 0 r) (start, c) in
    let problems =
      counted sv (codes "problems")
        (codes "SELECT count(siteId) FROM sites WHERE siteStatus!='0' AND groupId=" ++ cell 0 r)
        sites in
    (problems.0 ++ codes "</elem>", problems.1)

-- The text of the page, and what is left of `c`
unfoldable pub groups_page : Services → Conn → Bytes × Conn
unfolding compile query group_row
groups_page sv c =
    let ready =
      compile sv (set_header (codes "Content-Type") (codes "text/html") (set_status 200 c)) in
    let (q, asked) = query sv groups_query ready in
    let rows = each_row q.rows (group_row sv) q (doc_start ++ groups_head, asked) in
    (rows.0 ++ groups_tail, rows.1)

-- `case 1`
unfoldable pub show_groups : Services → Conn → Round
unfolding groups_page show_page
show_groups sv c = show_page sv (groups_page sv c).0 (groups_page sv c).1

-- The text of `case 2`
abbrev pub delete_group_text : Services → StrMap → Bytes
delete_group_text sv P =
    codes "DELETE FROM site_groups WHERE groupId='"
    ++ sv.addslashes (at (codes "elid") P)
    ++ codes "'"

-- `case 2`; nothing has been put into `P`.
unfoldable pub delete_group : Services → Conn → Round
unfolding query
delete_group sv c = leave same_handler (set_state 1 (query sv (delete_group_text sv []) c).1)

-- `if(get_vars) M = *get_vars; if(post_vars) M = *post_vars;`
abbrev pub group_vars : Asked → StrMap
group_vars q = elim q.post_vars [ none ↦ vars q.get_vars | some m ↦ m ]

-- A round of `mgrSiteGroupList`
unfoldable pub group_list : Services → Asked → Conn → Round
unfolding show_groups delete_group
group_list sv q c =
    let M = group_vars q in
    if c.hndstate == 0
    then cycle (set_state (if says M (codes "act") (codes "sitegroupdel") then 2 else 1) c)
    else if c.hndstate == 1
    then show_groups sv c
    else if c.hndstate == 2
    then delete_group sv c
    else if c.hndstate == 10
    then error_500 c
    else cycle c

-- `case 2`
unfoldable pub insert_group : Services → StrMap → Conn → Round
unfolding query tpl_goto
insert_group sv M c =
    let newname = at (codes "newname") M in
    let text =
      codes "INSERT INTO site_groups (groupName) VALUES ('"
      ++ sv.addslashes newname
      ++ codes "')" in
    if beq newname []
    then cycle (set_state 1 c)
    else leave finish_request (tpl_goto sv [] (codes "sitegroups") (query sv text c).1)

-- A round of `mgrSiteGroupAdd`
unfoldable pub group_add : Services → Asked → Conn → Round
unfolding compile show_page insert_group
group_add sv q c =
    let M = vars q.post_vars in
    if c.hndstate == 0
    then cycle (
        set_state (if says M (codes "sok") (codes "ok") then 2 else 1)
          (compile sv (set_header (codes "Content-Type") (codes "text/html") (set_status 200 c))))
    else if c.hndstate == 1
    then show_page sv (doc_start ++ group_form) c
    else if c.hndstate == 2
    then insert_group sv M c
    else if c.hndstate == 500
    then error_500 c
    else cycle c
