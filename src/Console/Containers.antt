-- ===== src/Console/Containers.antt =====
-- src/modules/mgr/mgr_cts.cpp: the containers.
pub mod Output
use evcp.Base.{
  ℕ, zero, suc, ◌/◌, [], ◌∷◌, ◌++◌, List, Option, none, some, Bytes, codes, if◌then◌else◌,
}
use evcp.Request.Chars.{lf}
use evcp.Life.Blocks.{◌>>=◌}
use evcp.Console.State.{
  Services, Conn, Next, finish_request, Round, element, doc_start, show_page, set_state,
}
use evcp.Console.State
use evcp.Console.Programs.{
  Programs, Shell, Turn, again, answers, null_pointer, short_line, start_or_fail, fails, ready,
  with_output, by_state,
}
use evcp.Console.Texts.Containers.{create_head, create_tail, containers_head, containers_tail}
use evcp.Program.{run_program}

-- `i[n]`
abbrev pub column : ℕ → List Bytes → Option Bytes
column n [] = none
column zero (x ∷ xs) = some x
column (suc n) (x ∷ xs) = column n xs

-- The rows of a page, unless a line has too few columns
unfoldable pub rows : (List Bytes → Option Bytes) → List (List Bytes) → Option Bytes
rows row [] = some []
rows row (i ∷ more) = do text ← row i; rest ← rows row more; some (text ++ rest)

unfoldable pub words_of : Programs → List Bytes → List (List Bytes)
words_of pg [] = []
words_of pg (d ∷ ds) = pg.words d ∷ words_of pg ds

-- The page is made and shown; `show_page` ends with `sp_finish_request`.
unfoldable pub page_turn : Services → Bytes → Shell → Turn
unfolding show_page
page_turn sv myxml s = elim (show_page sv myxml s.conn) [
  | State.leave next c ↦ answers next (record s { conn = c })
  | State.cycle c ↦ again (record s { conn = c })
  | State.unfinished ↦ null_pointer
  | State.null_pointer ↦ null_pointer
]

abbrev pub if_rows : Option Bytes → (Bytes → Turn) → Turn
if_rows none k = short_line
if_rows (some text) k = k text

unfoldable pub rows_page :
    Services → Programs → Bytes → (List Bytes → Option Bytes) → Bytes → List Bytes → Shell → Turn
unfolding rows words_of page_turn
rows_page sv pg head row tail d s =
    if_rows (rows row (words_of pg d))
      (λ text. page_turn sv (doc_start ++ (head ++ (text ++ tail))) s)

-- One container
unfoldable pub container_row : Programs → List Bytes → Option Bytes
container_row pg i = do
  elid ← column 0 i
  host ← column 1 i
  ostempl ← column 2 i
  ipaddr ← column 3 i
  status ← column 4 i
  numproc ← column 5 i
  space ← column 6 i
  soft ← column 7 i
  laverage ← column 8 i
  some (
      codes "<elem>"
      ++ (element (codes "elid") elid
          ++ (element (codes "host") host
              ++ (element (codes "ostempl") ostempl
                  ++ (element (codes "ipaddr") ipaddr
                      ++ (element (codes "status") status
                          ++ (element (codes "numproc") numproc
                              ++ (element (codes "space") (
                                    pg.ltos (pg.atol space / 1024)
                                    ++ (codes "/" ++ pg.ltos (pg.atol soft / 1024)))
                                  ++ (element (codes "laverage") laverage
                                      ++ codes "</elem>")))))))))

abbrev pub vzlist : Bytes
vzlist =
    codes
      "vzlist -H -a -o ctid,hostname,ostemplate,ip,status,numproc,diskspace,diskspace.s,laverage,cpulimit,cpuunits,ioprio,onboot"

-- `case 1`
abbrev pub show_containers : Services → Programs → Shell → Turn
show_containers sv pg s =
    with_output (λ b. sv.explode b lf)
      (rows_page sv pg containers_head (container_row pg) containers_tail)
      (record s { conn = ready sv (codes "text/html") s.conn })

-- A round of `mgrCtsList`
unfoldable pub container_list : Services → Programs → Shell → Turn
unfolding ready rows_page container_row containers_head containers_tail
container_list sv pg s =
    by_state s.conn.hndstate (start_or_fail (pg.starts vzlist) s) (show_containers sv pg s)
      (fails s) (again s)

-- One template to choose from
unfoldable pub template_option : List Bytes → Option Bytes
template_option i = do
  file ← column 4 i
  some (codes "<option value=\"" ++ (file ++ (codes "\">" ++ (file ++ codes "</option>"))))

abbrev pub list_templates : Bytes
list_templates =
    codes
      "/bin/ls -1Uoglh --color=never --time-style=+%s /vz/template/cache/*.tar.gz | sed -e \"s/\\/.*\\///\" "

-- `case 1`
abbrev pub show_form : Services → Programs → Shell → Turn
show_form sv pg s =
    with_output (λ b. sv.explode b lf)
      (rows_page sv pg
        (create_head ++ codes "<slist name=\"ostmpl\"><option value=\"\">Please, select</option>")
        template_option (codes "</slist>" ++ create_tail))
      (record s { conn = ready sv (codes "text/html") s.conn })

-- A round of `mgrCtsCreate`, whose `case 0` goes on into `case 1` when the program has been started
unfoldable pub container_create : Services → Programs → Shell → Turn
unfolding ready rows_page template_option create_head create_tail
container_create sv pg s =
    by_state s.conn.hndstate
      (if pg.starts list_templates
        then show_form sv pg (record s { conn = set_state 1 s.conn; rp = some run_program })
        else again (record s { conn = set_state 2 s.conn }))
      (show_form sv pg s) (fails s) (again s)
