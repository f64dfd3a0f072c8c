-- ===== src/Console/State.antt =====
-- src/modules/mgr: what a command of the console works on, and the calls that the commands share.
use evcp.Base.{ℕ, zero, suc, [], ◌∷◌, ◌++◌, List, Option, none, some, Bool, Bytes, codes, beq}
use evcp.Base.Maps.{StrMap, insert, at}
use evcp.Connection.Headers.{c_str}
use evcp.Database.{Row, Result, Prepared, Allocator, db_query, fetch_row}
use evcp.Response.{Response, fill_resp, compile_resp}
use evcp.Session.{Session, Sessions}

-- What the commands call: `addslashes`, `explode` and `base64_decode`, SQLite on a text after the
-- texts before it, the number of the last row that was inserted, libxslt with a template on a
-- document, `snprintf("%l")`, the memory, the time, and the numbers of `rand`.
pub record Services : Type 0 where
  pub addslashes : Bytes → Bytes
  pub explode : Bytes → ℕ → List Bytes
  pub base64_decode : Bytes → Bytes
  pub atoi : Bytes → ℕ
  pub sqlite : List Bytes → Bytes → List Prepared
  pub insert_id : List Bytes → ℕ
  pub transform : Bytes → Bytes → Option Bytes
  pub long_text : ℕ → Bytes
  pub realloc : ℕ → Bool
  pub allocator : Allocator
  pub now : ℕ
  pub ids : List ℕ

-- The request: its headers, its cookie `SPSID`, its variables, and the peer's address
pub record Asked : Type 0 where
  pub headers : StrMap
  pub sid : Bytes
  pub get_vars : Option StrMap
  pub post_vars : Option StrMap
  pub peer : Bytes

-- `sp_conn_s`, as far as the commands change it, with the sessions and the texts that `db_query` has
-- been given, the oldest first
pub record Conn : Type 0 where
  pub hndstate : ℕ
  pub resp : Response
  pub queries : List Bytes
  pub sessions : Sessions
  pub sess : Option Session

-- What `sp_next` is called with: `sp_finish_request`, or `c->handler`, which is the command itself.
pub data Next : Type 0 where
  finish_request same_handler : Next

-- How a round of `for(;;)` ends; `unfinished` is a loop in it that was given too few rounds.
pub data Round : Type 0 where
  cycle : Conn → Round
  leave : Next → Conn → Round
  unfinished : Round
  null_pointer : Round

-- `for(;;)`, in rounds
unfoldable pub cycles : ℕ → (Conn → Round) → Conn → Option (Next × Conn)
cycles zero body c = none
cycles (suc n) body c = elim (body c) [
  | cycle c' ↦ cycles n body c'
  | leave next c' ↦ some (next, c')
  | unfinished ↦ none
  | null_pointer ↦ none
]

-- `if(vars) M = *vars`
abbrev pub vars : Option StrMap → StrMap
vars none = []
vars (some m) = m

abbrev pub set_state : ℕ → Conn → Conn
set_state n c = record c { hndstate = n }

abbrev pub set_status : ℕ → Conn → Conn
set_status n c = record c { resp = record c.resp { status = n } }

abbrev pub set_header : Bytes → Bytes → Conn → Conn
set_header k v c = record c { resp = record c.resp { h_out = insert k v c.resp.h_out } }

-- `conn_compile_resp(c)`
unfoldable pub compile : Services → Conn → Conn
unfolding compile_resp
compile sv c = record c { resp = compile_resp sv.realloc c.resp }

-- `conn_fillresp(c, text)`
unfoldable pub fill : Services → Bytes → Conn → Conn
unfolding fill_resp
fill sv text c = record c { resp = (fill_resp sv.realloc text c.resp).1 }

-- `db_query(text)`
unfoldable pub query : Services → Bytes → Conn → Result × Conn
unfolding db_query
query sv text c = (
  db_query sv.allocator (sv.sqlite c.queries (c_str text)),
  record c { queries = c.queries ++ c_str text ∷ [] },
)

-- `r[i]`
unfoldable pub cell : ℕ → Row → Bytes
cell i [] = []
cell zero (x ∷ xs) = x
cell (suc i) (x ∷ xs) = cell i xs

-- `"<name>" + value + "</name>"`
abbrev pub element : Bytes → Bytes → Bytes
element name value = codes "<" ++ name ++ codes ">" ++ value ++ codes "</" ++ name ++ codes ">"

-- A query of one number for a row, whose result is added to the page
unfoldable pub counted : Services → Bytes → Bytes → Bytes × Conn → Bytes × Conn
unfolding query fetch_row
counted sv name text (myxml, c) =
    let (q, c') = query sv text c in
    elim (fetch_row q).0 [ none ↦ (myxml, c') | some r ↦ (myxml ++ element name (cell 0 r), c') ]

abbrev pub doc_start : Bytes
doc_start = codes "<?xml version=\"1.0\" encoding=\"UTF-8\"?>"

abbrev pub modules_template : Bytes
modules_template = codes "/home/dev/cpp/docroot/sirius/modules.xsl"

-- `presult = p.parse(myxml)`, which is answered, and `sp_next(c, sp_finish_request)`
unfoldable pub show_page : Services → Bytes → Conn → Round
unfolding fill
show_page sv myxml c = elim (sv.transform modules_template (c_str myxml)) [
  | none ↦ leave finish_request (fill sv (codes "Template parse error") c)
  | some text ↦ leave finish_request (fill sv (c_str text) c)
]

-- `<val>` of one row of a list to choose from
abbrev pub option_text : Row → Bytes
option_text r = codes "<val key=\"" ++ cell 0 r ++ codes "\">" ++ cell 1 r ++ codes "</val>"

unfoldable pub option_row : Row → Bytes → Bytes
option_row r myxml = myxml ++ option_text r

-- `case 10` and `case 500`
unfoldable pub error_500 : Conn → Round
error_500 c = leave finish_request (set_status 500 c)

-- `mgrTplGoto`
unfoldable pub tpl_goto : Services → Bytes → Bytes → Conn → Conn
unfolding fill
tpl_goto sv one two c = fill sv (codes "</script>") (
    fill sv (codes "');") (
      fill sv (c_str two) (
        fill sv (codes "','") (
          fill sv (c_str one) (
            fill sv (codes "top.mn_do_action('") (
              fill sv (codes "<script type=\"text/javascript\">") (
                fill sv (codes "<!DOCTYPE html PUBLIC \"-//W3C//DTD HTML 4.01 Transitional//EN\">")
                  c)))))))

-- `M[k]=="v"`
abbrev pub says : StrMap → Bytes → Bytes → Bool
says m k v = beq (at k m) v
