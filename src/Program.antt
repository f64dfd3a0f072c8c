-- ===== src/Program.antt =====
-- src/core/sys.cpp: a program or a file whose output a handler waits for.
use evcp.Base.{
  take, take_long, ◌<◌, ◌≤◌, ℕ, ◌+◌, ◌-◌, ◌≡◌, ◌∙◌, refl, [], ◌∷◌, ◌++◌, List, Option, none, some,
  Bool, true, false, Bytes, length, ltb, ◌==◌, ◌||◌, if◌then◌else◌, arith, append_assoc, append-nil,
  sym, ap,
}
use evcp.Connection.Read.{reqbufpart}

-- `rp_data_t`, as far as `runProgramRead` reads it; `buf` is NULL or holds `len` bytes of `size`.
pub record RunProgram : Type 0 where
  pub state : ℕ
  pub buf : Option Bytes
  pub size : ℕ
  pub result : Bool

-- `sysRunProgram`, when `popen` or `open` has succeeded
abbrev pub run_program : RunProgram
run_program = record { state = 1; buf = none; size = 0; result = true }

-- `sysRunProgram`: whether `malloc` succeeds, whether a program is run (and whether `popen` succeeds), and
-- what `open` gives otherwise; `none` is a return of false. It starts `runProgramRead`.
unfoldable pub sys_run_program : Bool → Bool → Bool → Option ℕ → Option RunProgram
sys_run_program memory ex popens fd =
    if memory
    then if ex
      then if popens then some run_program else none
      else elim fd [ none ↦ none | some n ↦ if ltb n 1 then none else some run_program ]
    else none

-- What `read` gives: below 0, 0, or bytes.
pub data Got : Type 0 where
  failed at_end : Got
  bytes : Bytes → Got

-- What comes next: the same function when there is more to read, or at once; or the handler of the
-- connection; or nothing.
pub data RunNext : Type 0 where
  on_input at_once handler nothing : RunNext

abbrev pub output : Option Bytes → Bytes
output none = []
output (some b) = b

abbrev is_null : Option Bytes → Bool
is_null none = true
is_null (some b) = false

-- `if(rp->len > rp->size - REQBUFPART/2 || rp->buf==NULL)`. (A buffer that is there has more than
-- 512 bytes, so the subtraction does not wrap where its result counts.)
unfoldable pub grow : (ℕ → Bool) → RunProgram → RunProgram
grow realloc rp =
    let size = rp.size + reqbufpart + 1 in
    if ltb (rp.size - 512) (length (output rp.buf)) || is_null rp.buf
    then if realloc size then record rp { buf = some (output rp.buf); size = size } else rp
    else rp

-- What `read` has put into the buffer; no bytes are an end, also where there was no room for any.
abbrev pub read_bytes : RunProgram → Bytes → RunNext × RunProgram
read_bytes rp got =
    if length got == 0
    then (at_once, record rp { state = 2 })
    else (on_input, record rp { buf = some (output rp.buf ++ got) })

-- `dlen`; without a buffer there is no room
abbrev pub room : RunProgram → ℕ
room rp = rp.size - length (output rp.buf)

-- `runProgramRead`, with what `read` gives if it is called, of bytes no more than there is room for
unfoldable pub run_program_read : (ℕ → Bool) → Got → RunProgram → RunNext × RunProgram
unfolding grow
run_program_read realloc got rp =
    let grown = grow realloc rp in
    if rp.state == 1
    then elim got [
      | failed ↦ (at_once, record grown { state = 3 })
      | at_end ↦ (at_once, record grown { state = 2 })
      | bytes b ↦ read_bytes grown (take (room grown) b)
    ]
    else if rp.state == 2
    then (handler, rp)
    else if rp.state == 3
    then (handler, record rp { result = false })
    else (nothing, rp)

-- The calls for what one `read` after the other gives
unfoldable pub run_all : (ℕ → Bool) → List Got → RunProgram → RunProgram
unfolding run_program_read
run_all realloc [] rp = rp
run_all realloc (g ∷ gs) rp = run_all realloc gs (run_program_read realloc g rp).1

abbrev pub pieces : List Bytes → List Got
pieces [] = at_end ∷ []
pieces (b ∷ bs) = bytes b ∷ pieces bs

abbrev pub concat : List Bytes → Bytes
concat [] = []
concat (b ∷ bs) = b ++ concat bs

grow-output :
    (realloc : ℕ → Bool) (rp : RunProgram)
    → (output (grow realloc rp).buf ≡ output rp.buf) × ((grow realloc rp).state ≡ rp.state)
unfolding grow
grow-output realloc rp = ground arith

in_state_1 :
    {x : RunNext × RunProgram} {n : ℕ} (y : RunNext × RunProgram)
    → n ≡ 1
    → (if n == 1 then x else y) ≡ x
in_state_1 y e = rw e refl

-- Each read gives a byte or more, and no more than it has room for; and the last one, which gives none,
-- has room for one.
abbrev pub Fits : (ℕ → Bool) → List Bytes → RunProgram → Type 0
Fits realloc [] rp = 0 < room (grow realloc rp)
Fits realloc (b ∷ bs) rp =
    let grown = grow realloc rp in
    (0 < length b)
    × ((length b ≤ room grown)
        × Fits realloc bs (record grown { buf = some (output grown.buf ++ b) }))

read_bytes-more :
    (rp : RunProgram) (got : Bytes)
    → 0 < length got
    → read_bytes rp got ≡ (on_input, record rp { buf = some (output rp.buf ++ got) })
read_bytes-more rp got h = let e : (length got == 0) ≡ false = ground arith in rw e refl

run_program_read-bytes :
    (realloc : ℕ → Bool) (b : Bytes) (rp : RunProgram)
    → rp.state ≡ 1
    → 0 < length b
    → length b ≤ room (grow realloc rp)
    → (run_program_read realloc (bytes b) rp).1
      ≡ record (grow realloc rp) { buf = some (output (grow realloc rp).buf ++ b) }
unfolding run_program_read
run_program_read-bytes realloc b rp h some_bytes fits =
    let grown = grow realloc rp in
    ap (λ (p : RunNext × RunProgram). p.1)
      (in_state_1 _ h
        ∙ ap (read_bytes grown) (take_long (room grown) b fits)
        ∙ read_bytes-more grown b some_bytes)

-- A program whose output comes in pieces that there is room for: once it has ended, the buffer holds all of
-- them, in their order.
pub run_all-pieces :
    (realloc : ℕ → Bool) (bs : List Bytes) (rp : RunProgram)
    → Fits realloc bs rp
    → rp.state ≡ 1
    → (output (run_all realloc (pieces bs) rp).buf ≡ output rp.buf ++ concat bs)
      × ((run_all realloc (pieces bs) rp).state ≡ 2)
unfolding run_all
run_all-pieces realloc [] rp fits h =
    let (same, _) = grow-output realloc rp in
    let last = ap (λ (p : RunNext × RunProgram). p.1) (in_state_1 _ h) in
    (
      ap (λ (p : RunProgram). output p.buf) last ∙ same ∙ sym (append-nil (output rp.buf)),
      ap (λ (p : RunProgram). p.state) last,
    )
run_all-pieces realloc (b ∷ bs) rp (some_bytes, (within, fits)) h =
    let (same, state) = grow-output realloc rp in
    let grown = grow realloc rp in
    let (all, ended) =
      run_all-pieces realloc bs (record grown { buf = some (output grown.buf ++ b) }) fits
        (state ∙ h) in
    let first =
      ap (run_all realloc (pieces bs)) (run_program_read-bytes realloc b rp h some_bytes within) in
    (
      ap (λ (p : RunProgram). output p.buf) first
          ∙ all
          ∙ ap (λ (o : Bytes). (o ++ b) ++ concat bs) same
          ∙ append_assoc (output rp.buf) b (concat bs),
      ap (λ (p : RunProgram). p.state) first ∙ ended,
    )
