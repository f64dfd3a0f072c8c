-- ===== src/Request/Header.antt =====
-- src/core/request.cpp, `sp_parse_header_line`. The local `i` goes along with the state: it is
-- stored to `lowcase_index` where a header line ends or the input does.
pub mod Resume
pub mod Bounds
pub mod Invalid
use evcp.Base.{
  ℕ, ◌+◌, ◌-◌, ◌%◌, [], ◌∷◌, Bool, true, false, ◌&&◌, ◌==◌, Bytes, set, drop, codes, if◌then◌else◌,
}
use evcp.Request.Chars.{lf, cr, lowcase}
use evcp.Request.Method.{str_cmp}
use evcp.Request.{
  Code, ok, again, header_done, error, invalid_header, HeaderState, start, name, space_before_value,
  value, space_after_value, ignore_line, almost_done, header_almost_done, Request, lc_header_len,
  Outcome, go, done, finished, fail,
}

-- The loop's variables `state` and `i`.
abbrev pub Local : Type 0
Local = HeaderState × ℕ

-- `r->lowcase_header[i++] = c; i &= (NGX_HTTP_LC_HEADER_LEN - 1);`
abbrev push_lowcase : Request → ℕ → ℕ → Outcome Local
push_lowcase r i c =
    go (name, (i + 1) % lc_header_len) (record r { lowcase_header = set r.lowcase_header i c })

-- `case sw_start`
unfoldable pub step_start : Request → ℕ → ℕ → ℕ → Outcome Local
step_start r i p ch =
    let r' = record r { header_name_start = p; invalid_header = 0 } in
    let r'' = record r' { header_end = p } in
    let c = lowcase ch in
    if ch == cr
    then go (header_almost_done, i) r''
    else if ch == lf
    then finished r''
    else if c == 0
    then go (name, i) (record r' { invalid_header = 1 })
    else go (name, 1) (record r' { lowcase_header = set r'.lowcase_header 0 c })

-- The name's end, and an empty value, at `p`.
abbrev name_ends : Request → ℕ → Request
name_ends r p = record r { header_name_end = p; header_start = p; header_end = p }

-- `case sw_name`
unfoldable pub step_name : Bytes → Bool → Request → ℕ → ℕ → ℕ → Outcome Local
step_name buf allow_underscores r i p ch =
    let c = lowcase ch in
    let bad = record r { invalid_header = 1 } in
    if c == 0
    then if ch == b'_'
      then if allow_underscores then push_lowcase r i ch else go (name, i) bad
      else if ch == b':'
      then go (space_before_value, i) (record r { header_name_end = p })
      else if ch == cr
      then go (almost_done, i) (name_ends r p)
      else if ch == lf
      then done (name_ends r p)
      else if ch == b'/'
          && p - r.header_name_start == 4
          && str_cmp buf r.header_name_start (codes "HTTP")
      then go (ignore_line, i) r
      else go (name, i) bad
    else push_lowcase r i c

-- `case sw_space_before_value`
unfoldable pub step_space_before_value : Request → ℕ → ℕ → ℕ → Outcome Local
step_space_before_value r i p ch =
    let empty = record r { header_start = p; header_end = p } in
    if ch == b' '
    then go (space_before_value, i) r
    else if ch == cr
    then go (almost_done, i) empty
    else if ch == lf
    then done empty
    else go (value, i) (record r { header_start = p })

-- `case sw_value`
unfoldable pub step_value : Request → ℕ → ℕ → ℕ → Outcome Local
step_value r i p ch =
    let ended = record r { header_end = p } in
    if ch == b' '
    then go (space_after_value, i) ended
    else if ch == cr
    then go (almost_done, i) ended
    else if ch == lf
    then done ended
    else go (value, i) r

-- `case sw_space_after_value`
unfoldable pub step_space_after_value : Request → ℕ → ℕ → Outcome Local
step_space_after_value r i ch =
    if ch == b' '
    then go (space_after_value, i) r
    else if ch == cr
    then go (almost_done, i) r
    else if ch == lf
    then done r
    else go (value, i) r

-- `case sw_ignore_line`
unfoldable pub step_ignore_line : Request → ℕ → ℕ → Outcome Local
step_ignore_line r i ch = if ch == lf then go (start, i) r else go (ignore_line, i) r

-- `case sw_almost_done`
unfoldable pub step_almost_done : Request → ℕ → ℕ → Outcome Local
step_almost_done r i ch =
    if ch == lf then done r else if ch == cr then go (almost_done, i) r else fail invalid_header r

-- `case sw_header_almost_done`
unfoldable pub step_header_almost_done : Request → ℕ → Outcome Local
step_header_almost_done r ch = if ch == lf then finished r else fail invalid_header r

-- `switch (state)`
unfoldable pub step_header : Bytes → Bool → HeaderState → ℕ → Request → ℕ → ℕ → Outcome Local
unfolding step_start step_name step_space_before_value step_value step_space_after_value
    step_ignore_line step_almost_done step_header_almost_done
step_header buf under start i r p ch = step_start r i p ch
step_header buf under name i r p ch = step_name buf under r i p ch
step_header buf under space_before_value i r p ch = step_space_before_value r i p ch
step_header buf under value i r p ch = step_value r i p ch
step_header buf under space_after_value i r p ch = step_space_after_value r i ch
step_header buf under ignore_line i r p ch = step_ignore_line r i ch
step_header buf under almost_done i r p ch = step_almost_done r i ch
step_header buf under header_almost_done i r p ch = step_header_almost_done r ch

-- The statements at `done:`
abbrev pub line_finished : Request → ℕ → ℕ → Code × Request
line_finished r i p = (ok, record r { pos = p + 1; header_state = start; lowcase_index = i })

-- The statements at `header_done:`
abbrev pub header_finished : Request → ℕ → Code × Request
header_finished r p = (header_done, record r { pos = p + 1; header_state = start })

abbrev pub after_step :
    Outcome Local → ℕ → ℕ → (HeaderState → ℕ → Request → Code × Request) → Code × Request
after_step (go (s, i) r) i0 p rest = rest s i r
after_step (done r) i0 p rest = line_finished r i0 p
after_step (finished r) i0 p rest = header_finished r p
after_step (fail e r) i0 p rest = (error e, r)

-- `for (p = r->pos; p < r->last; p++)`, over the characters from `p` on.
unfoldable pub header_loop : Bytes → Bool → HeaderState → ℕ → Request → ℕ → Bytes → Code × Request
header_loop buf under s i r p [] =
    (again, record r { pos = p; header_state = s; lowcase_index = i })
header_loop buf under s i r p (ch ∷ rest) =
    after_step (step_header buf under s i r p ch) i p
      (λ s' i' r'. header_loop buf under s' i' r' (p + 1) rest)

unfoldable pub parse_header_line : Bytes → Bool → Request → Code × Request
unfolding header_loop
parse_header_line buf under r =
    header_loop buf under r.header_state r.lowcase_index r r.pos (drop r.pos buf)
