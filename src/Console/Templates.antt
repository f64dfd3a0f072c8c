-- ===== src/Console/Templates.antt =====
-- src/modules/mgr/mgr_oslist.cpp: the system templates.
use evcp.Base.{◌++◌, Option, some, Bytes, codes, List, ◌==◌, if◌then◌else◌}
use evcp.Request.Chars.{lf}
use evcp.Life.Blocks.{◌>>=◌}
use evcp.Console.State.{
  Services, Asked, Conn, Round, cycle, leave, finish_request, vars, set_state, set_status,
  set_header, compile, element, doc_start, show_page, error_500, says,
}
use evcp.Console.Programs.{
  Programs, Shell, Turn, again, start_or_fail, fails, ready, with_output, by_state,
}
use evcp.Console.Containers.{column, rows_page}
use evcp.Console.Texts.Templates.{templates_head, templates_tail, template_form}

abbrev pub list_files : Bytes
list_files =
    codes
      "/bin/ls -1Uoglh --color=never --time-style=+%s /vz/template/cache/*.tar.gz | sed -e \"s/\\/.*\\///\""

-- One template
unfoldable pub template_row : List Bytes → Option Bytes
template_row i = do
  file ← column 4 i
  mtime ← column 3 i
  size ← column 2 i
  some (
      codes "<elem>"
      ++ (element (codes "ostempl") file
          ++ (element (codes "mtime") mtime ++ (element (codes "size") size ++ codes "</elem>"))))

-- `case 1`
abbrev pub show_templates : Services → Programs → Shell → Turn
show_templates sv pg s =
    with_output (λ b. sv.explode b lf) (rows_page sv pg templates_head template_row templates_tail)
      (record s { conn = ready sv (codes "text/html") s.conn })

-- A round of `mgrOsList`
unfoldable pub template_list : Services → Programs → Shell → Turn
unfolding ready rows_page template_row templates_head templates_tail
template_list sv pg s =
    by_state s.conn.hndstate (start_or_fail (pg.starts list_files) s) (show_templates sv pg s)
      (fails s) (again s)

-- A round of `mgrOsAdd`, whose `case 2` adds nothing
unfoldable pub template_add : Services → Asked → Conn → Round
unfolding compile show_page template_form
template_add sv q c =
    if c.hndstate == 0
    then cycle (
        set_state (if says (vars q.post_vars) (codes "sok") (codes "ok") then 2 else 1)
          (compile sv (set_header (codes "Content-Type") (codes "text/html") (set_status 200 c))))
    else if c.hndstate == 1
    then show_page sv (doc_start ++ template_form) c
    else if c.hndstate == 2
    then leave finish_request c
    else if c.hndstate == 500
    then error_500 c
    else cycle c
