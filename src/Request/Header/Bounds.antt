-- ===== src/Request/Header/Bounds.antt =====
-- Where the pointers that `sp_parse_header_line` leaves behind may stand, and that its writes to
-- `lowcase_header` stay within the array.
use evcp.Base.{
  ℕ, ◌+◌, ◌<◌, ◌≤◌, ◌≡◌, refl, [], ◌∷◌, Bool, Bytes, length, length-set, drop, length-drop, arith,
}
use evcp.Request.Chars
use evcp.Request.Header.{step_header, after_step, header_loop, parse_header_line, Local}
use evcp.Request.{
  ok, again, header_done, error, HeaderState, start, name, space_before_value, value,
  space_after_value, almost_done, header_almost_done, Request, fresh, lc_header_len, Outcome, Code,
  go, done, finished, fail,
}

-- The write index is within `lowcase_header`, so that no write of the parser is lost or strays.
abbrev pub IndexWithin : ℕ → Request → Type 0
IndexWithin i r = (i < lc_header_len) × (length r.lowcase_header ≡ lc_header_len)

abbrev pub HasName : Request → ℕ → Type 0
HasName r p = (r.header_name_start ≤ r.header_name_end) × (r.header_name_end < p)

-- Name and value are read.
abbrev pub HasValue : Request → ℕ → Type 0
HasValue r p =
    (r.header_name_start ≤ r.header_name_end)
    × (r.header_name_end ≤ r.header_start)
    × (r.header_start ≤ r.header_end)
    × (r.header_end ≤ p)

abbrev pub Places : HeaderState → Request → ℕ → Type 0
Places name r p = r.header_name_start < p
Places space_before_value r p = HasName r p
Places value r p = HasName r p × (r.header_name_end ≤ r.header_start) × (r.header_start < p)
Places space_after_value r p = HasValue r p × (r.header_start < p)
Places almost_done r p = HasValue r p
Places header_almost_done r p = r.header_end < p
Places _ r p = Unit

abbrev pub Inv : HeaderState → ℕ → Request → ℕ → Type 0
Inv s i r p = IndexWithin i r × Places s r p

abbrev InvAfter : ℕ → ℕ → Outcome Local → Type 0
InvAfter i p (go (s, j) r) = Inv s j r (p + 1)
InvAfter i p (done r) = HasValue r p × IndexWithin i r
InvAfter i p (finished r) = IndexWithin i r × (r.header_end ≤ p)
InvAfter i p (fail e r) = Unit

step_header-Inv :
    (buf : Bytes) (under : Bool) (s : HeaderState) (i : ℕ) (r : Request) (p ch : ℕ)
    → Inv s i r p
    → InvAfter i p (step_header buf under s i r p ch)
unfolding step_header
step_header-Inv buf under start i r p ch v =
    ground (arith, length-set r.lowcase_header 0 (Chars.lowcase ch))
step_header-Inv buf under name i r p ch v =
    ground
      (arith, length-set r.lowcase_header i ch, length-set r.lowcase_header i (Chars.lowcase ch))
step_header-Inv buf under _ i r p ch v = ground arith

-- What a call guarantees of the pointers into a buffer of `size` bytes.
abbrev pub Checked : ℕ → Code × Request → Type 0
Checked size (ok, r) =
    HasValue r r.pos
    × IndexWithin r.lowcase_index r
    × (r.pos ≤ size)
    × (r.header_end < r.pos)
    × (r.header_state ≡ start)
Checked size (header_done, r) =
    (r.header_end < r.pos)
    × (r.pos ≤ size)
    × (length r.lowcase_header ≡ lc_header_len)
    × (r.header_state ≡ start)
Checked size (again, r) = Inv r.header_state r.lowcase_index r r.pos × (r.pos ≡ size)
Checked size (error e, r) = Unit

after_step-Checked :
    (size : ℕ) (o : Outcome Local) (i p : ℕ) (rest : HeaderState → ℕ → Request → Code × Request)
    → p < size
    → InvAfter i p o
    → ((s : HeaderState) (j : ℕ) (r : Request) → Inv s j r (p + 1) → Checked size (rest s j r))
    → Checked size (after_step o i p rest)
after_step-Checked size (go (s, j) r) i p rest h v k = k s j r v
after_step-Checked size (done r) i p rest h v k = ground arith
after_step-Checked size (finished r) i p rest h v k = ground arith
after_step-Checked size (fail e r) i p rest h v k = tt

Inv-stored :
    (s t : HeaderState) (i j : ℕ) (r : Request) (p a : ℕ)
    → Inv s i r p
    → Inv s i (record r { pos = a; header_state = t; lowcase_index = j }) p
Inv-stored start t i j r p a v = v
Inv-stored _ t i j r p a v = v

header_loop-Checked :
    (buf : Bytes) (under : Bool) (size : ℕ) (rest : Bytes) (s : HeaderState) (i : ℕ) (r : Request)
    (p : ℕ)
    → Inv s i r p
    → p + length rest ≡ size
    → Checked size (header_loop buf under s i r p rest)
unfolding header_loop
header_loop-Checked buf under size [] s i r p v h = (Inv-stored s s i i r p p v, omega arith)
header_loop-Checked buf under size (ch ∷ rest) s i r p v h =
    after_step-Checked size (step_header buf under s i r p ch) i p _ (omega arith)
      (step_header-Inv buf under s i r p ch v)
      (λ s' j r' v'. header_loop-Checked buf under size rest s' j r' (p + 1) v' (omega arith))

-- The index of the next write to `lowcase_header` is below its 32 bytes when the call returns with
-- a header line or at the buffer's end. After a header line its name and its
-- value are ranges in this order that end before `pos`, and `pos` is within the buffer; after the
-- last line `header_end` is before `pos`; at the buffer's end the invariant is kept for the call
-- that goes on.
pub parse_header_line-Checked :
    (buf : Bytes) (under : Bool) (r : Request)
    → Inv r.header_state r.lowcase_index r r.pos
    → r.pos ≤ length buf
    → Checked (length buf) (parse_header_line buf under r)
unfolding parse_header_line
parse_header_line-Checked buf under r v h =
    header_loop-Checked buf under (length buf) (drop r.pos buf) r.header_state r.lowcase_index r
      r.pos v (omega (arith, length-drop r.pos buf))

pub fresh-Inv : Inv fresh.header_state fresh.lowcase_index fresh fresh.pos
fresh-Inv = ((omega arith, refl), tt)

-- A buffer of `size` bytes, read up to the start of a header line.
abbrev pub AtLineStart : ℕ → Request → Type 0
AtLineStart size r = (r.header_state ≡ start) × IndexWithin r.lowcase_index r × (r.pos ≤ size)

-- A header line is one byte at least.
abbrev Grows : ℕ → Code × Request → Type 0
Grows p (ok, r) = p < r.pos
Grows p _ = Unit

Grows-mono : (p q : ℕ) (x : Code × Request) → p ≤ q → Grows q x → Grows p x
Grows-mono p q (ok, r) h g = omega arith
Grows-mono p q (again, r) h g = tt
Grows-mono p q (header_done, r) h g = tt
Grows-mono p q (error _, r) h g = tt

after_step-Grows :
    (o : Outcome Local) (i p : ℕ) (rest : HeaderState → ℕ → Request → Code × Request)
    → ((s : HeaderState) (j : ℕ) (r : Request) → Grows (p + 1) (rest s j r))
    → Grows p (after_step o i p rest)
after_step-Grows (go (s, j) r) i p rest h = Grows-mono p (p + 1) _ (omega arith) (h s j r)
after_step-Grows (done r) i p rest h = omega arith
after_step-Grows (finished r) i p rest h = tt
after_step-Grows (fail e r) i p rest h = tt

header_loop-Grows :
    (buf : Bytes) (under : Bool) (rest : Bytes) (s : HeaderState) (i : ℕ) (r : Request) (p : ℕ)
    → Grows p (header_loop buf under s i r p rest)
unfolding header_loop
header_loop-Grows buf under [] s i r p = tt
header_loop-Grows buf under (ch ∷ rest) s i r p =
    after_step-Grows (step_header buf under s i r p ch) i p _
      (λ s' j r'. header_loop-Grows buf under rest s' j r' (p + 1))

-- From one line's start to the next, with `pos` behind the line.
pub parse_header_line-AtLineStart :
    (buf : Bytes) (under : Bool) (r q : Request)
    → AtLineStart (length buf) r
    → parse_header_line buf under r ≡ (ok, q)
    → AtLineStart (length buf) q × (r.pos < q.pos)
unfolding parse_header_line
parse_header_line-AtLineStart buf under r q v e =
    let c : Checked (length buf) (ok, q) =
      rw e at (parse_header_line-Checked buf under r (v.1, rw v.0 tt) v.2) in
    let g : Grows r.pos (ok, q) =
      rw e at
        (header_loop-Grows buf under (drop r.pos buf) r.header_state r.lowcase_index r r.pos) in
    ((c.4, c.1, c.2), g)
