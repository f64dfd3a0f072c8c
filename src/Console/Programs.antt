-- ===== src/Console/Programs.antt =====
-- src/modules/mgr/mgr.cpp and src/core/sys.cpp: handlers that wait for the output of a program.
use evcp.Base.{ℕ, [], ◌∷◌, List, Option, none, some, Bool, Bytes, codes, take, ◌==◌, if◌then◌else◌}
use evcp.Request.Chars.{lf}
use evcp.Console.State.{
  Services, Conn, Next, finish_request, Round, leave, set_state, set_status, set_header, compile,
  fill,
}
use evcp.Program.{RunProgram, run_program, output}

-- What the handlers call besides: whether `popen` and `open` succeed, `explode` at its own delimiter, `atol`
-- of a text with no sign, and `ltos`
pub record Programs : Type 0 where
  pub starts : Bytes → Bool
  pub reads : Bytes → Bool
  pub words : Bytes → List Bytes
  pub atol : Bytes → ℕ
  pub ltos : ℕ → Bytes

-- The connection with `c->rp`
pub record Shell : Type 0 where
  pub conn : Conn
  pub rp : Option RunProgram

-- How a round of `for(;;)` ends: with another one; with a return, while `runProgramRead` goes on; with `sp_next`; or
-- with a use of NULL, or of a column that is not there.
pub data Turn : Type 0 where
  again waits : Shell → Turn
  answers : Next → Shell → Turn
  null_pointer short_line : Turn

-- `case 0`: the program is started, or the next round answers with an error.
abbrev pub start_or_fail : Bool → Shell → Turn
start_or_fail started s =
    if started
    then waits (record s { conn = set_state 1 s.conn; rp = some run_program })
    else again (record s { conn = set_state 2 s.conn })

-- `case 2`
abbrev pub fails : Shell → Turn
fails s = answers finish_request (record s { conn = set_status 500 s.conn })

-- The status, the type and the head of an answer
unfoldable pub ready : Services → Bytes → Conn → Conn
unfolding compile
ready sv type c = compile sv (set_header (codes "Content-Type") type (set_status 200 c))

-- `case 1`, with what follows when the output has been cut into pieces and freed
abbrev pub with_output : (Bytes → List Bytes) → (List Bytes → Shell → Turn) → Shell → Turn
with_output explode body s = elim s.rp [
  | none ↦ null_pointer
  | some rp ↦ body (explode (output rp.buf)) (record s { rp = none })
]

-- `switch(c->hndstate)`, for the states that these handlers have
abbrev pub by_state : ℕ → Turn → Turn → Turn → Turn → Turn
by_state n case0 case1 case2 other =
    if n == 0 then case0 else if n == 1 then case1 else if n == 2 then case2 else other

-- The elements of a list of texts, as a script reads them
unfoldable pub fill_items : Services → List Bytes → Conn → Conn
unfolding fill
fill_items sv [] c = c
fill_items sv (x ∷ []) c = fill sv x c
fill_items sv (x ∷ y ∷ more) c = fill_items sv (y ∷ more) (fill sv (codes "\",\"") (fill sv x c))

abbrev pub script : Services → List Bytes → Shell → Turn
script sv items s =
    answers finish_request (record s {
      conn = fill sv (codes "\"]") (fill_items sv items (fill sv (codes "[\"") s.conn));
    })

abbrev pub script_type : Bytes
script_type = codes "application/x-javascript"

-- A round of `mgrPS`
unfoldable pub process_status : Services → Programs → Shell → Turn
unfolding ready fill_items
process_status sv pg s =
    by_state s.conn.hndstate (start_or_fail (pg.reads (codes "/proc/loadavg")) s)
      (with_output pg.words (λ items. script sv (take 3 items))
        (record s { conn = ready sv script_type s.conn }))
      (fails s) (again s)

-- A round of `mgrCreate`; the command is printed without its arguments, so any text may come out.
unfoldable pub create : Services → Programs → Bytes → Shell → Turn
unfolding ready fill_items
create sv pg command s =
    by_state s.conn.hndstate (start_or_fail (pg.starts command) s)
      (with_output (λ b. sv.explode b lf) (script sv)
        (record s { conn = ready sv script_type s.conn }))
      (fails s) (again s)

-- `mgrOsTemp`
unfoldable pub os_template : Conn → Round
os_template c = leave finish_request c
