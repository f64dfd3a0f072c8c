-- ===== src/Request/Line/Bounds.antt =====
-- Where the pointers that `sp_parse_request_line` leaves behind may stand. `conn_read` subtracts
-- them from one another to get the lengths of its strings, as unsigned numbers.
use evcp.Base.{
  ℕ, ◌+◌, ◌<◌, ◌≤◌, ◌≡◌, refl, [], ◌∷◌, Option, some, none, Bytes, length, drop, length-drop, arith,
  Bool-cases, inl, inr, ◌*◌, ◌==◌, ◌&&◌, not,
}
use evcp.Request.Http
use evcp.Request.Line.{step_line, line_done, after_step, line_loop, parse_request_line}
use evcp.Request.{
  Code, ok, again, LineState, start, method, spaces_before_uri, schema, schema_slash,
  schema_slash_slash, host, port, after_slash_in_uri, check_uri, uri, http_09, Request, fresh,
  Outcome, go, done, finished, fail,
}

-- A pointer that may be NULL meets the condition if it is set.
abbrev pub IfSet : Option ℕ → (ℕ → Type 0) → Type 0
IfSet none P = Unit
IfSet (some x) P = P x

abbrev Unset : Option ℕ → Type 0
Unset o = o ≡ none

-- Nothing of the URI is set yet.
abbrev IsBlank : Request → Type 0
IsBlank r = Unset r.uri_ext × Unset r.args_start × Unset r.http_protocol × Unset r.request_end

-- The method's name lies in front of `p`.
abbrev IsNamed : Request → ℕ → Type 0
IsNamed r p = (r.request_start ≤ r.method_end) × (r.method_end < p)

abbrev HasScheme : Request → ℕ → ℕ → Type 0
HasScheme r n p = IsBlank r × IsNamed r p × (r.method_end < r.schema_end) × (r.schema_end + n ≤ p)

-- The suffix and the arguments lie in this order between the URI's start and `p`.
abbrev pub PartsWithin : Request → ℕ → Type 0
PartsWithin r p =
    IfSet r.uri_ext (λ x. (r.uri_start < x) × (x ≤ p))
    × IfSet r.args_start (λ a. (r.uri_start + 1 < a) × (a ≤ p) × IfSet r.uri_ext (λ x. x < a))

abbrev InUri : Request → ℕ → Type 0
InUri r p =
    (r.request_start ≤ r.method_end)
    × (r.method_end < r.uri_start)
    × (r.uri_start < p)
    × PartsWithin r p
    × Unset r.http_protocol
    × Unset r.request_end

abbrev HasUri : Request → ℕ → Type 0
HasUri r p =
    (r.request_start ≤ r.method_end)
    × (r.method_end < r.uri_start)
    × (r.uri_start < r.uri_end)
    × (r.uri_end ≤ p)
    × PartsWithin r r.uri_end

-- What holds in front of the character at `p`.
abbrev Inv : LineState → Request → ℕ → Type 0
Inv start r p = IsBlank r
Inv method r p = IsBlank r × (r.request_start < p)
Inv spaces_before_uri r p = IsBlank r × IsNamed r p
Inv schema r p = IsBlank r × IsNamed r p
Inv schema_slash r p = HasScheme r 1 p
Inv schema_slash_slash r p = HasScheme r 2 p
Inv host r p = HasScheme r 3 p
Inv port r p = HasScheme r 3 p
Inv after_slash_in_uri r p = InUri r p × Unset r.args_start
Inv check_uri r p = InUri r p × Unset r.args_start
Inv uri r p = InUri r p
Inv http_09 r p = HasUri r p × Unset r.http_protocol × Unset r.request_end × (r.uri_end < p)
Inv _ r p =
    HasUri r p
    × IfSet r.http_protocol (λ h. (r.uri_end < h) × (h < p))
    × Unset r.request_end
    × (r.uri_end < p)

-- What holds at `done:`, reached at the character at `p`.
abbrev AtDone : Request → ℕ → Type 0
AtDone r p =
    HasUri r p
    × IfSet r.http_protocol (λ h. (r.uri_end < h) × (h ≤ p))
    × IfSet r.request_end (λ e. (e ≤ p) × (r.uri_end ≤ e) × IfSet r.http_protocol (λ h. h ≤ e))

abbrev InvAfter : ℕ → Outcome LineState → Type 0
InvAfter p (go s r) = Inv s r (p + 1)
InvAfter p (done r) = AtDone r p
InvAfter p (finished r) = AtDone r p
InvAfter p (fail e r) = Unit

step_line-Inv :
    (buf : Bytes) (s : LineState) (r : Request) (p ch : ℕ)
    → Inv s r p
    → InvAfter p (step_line buf s r p ch)
unfolding step_line
step_line-Inv buf start r p ch v = ground arith
step_line-Inv buf _ r p ch v = ground arith

-- What a finished request line guarantees of the pointers into a buffer of `size` bytes.
pub record LineBounds (r : Request) (size : ℕ) : Type 0 where
  pub method_within : r.request_start ≤ r.method_end
  pub uri_after_method : r.method_end < r.uri_start
  pub uri_nonempty : r.uri_start < r.uri_end
  pub parts_within : PartsWithin r r.uri_end
  pub end_of_line : ℕ
  pub line_ends : r.request_end ≡ some end_of_line
  pub uri_before_end : r.uri_end ≤ end_of_line
  pub protocol_within : IfSet r.http_protocol (λ h. (r.uri_end < h) × (h ≤ end_of_line))
  pub end_before_pos : end_of_line < r.pos
  pub pos_within : r.pos ≤ size
  pub restarted : r.line_state ≡ start

abbrev pub Checked : ℕ → Code × Request → Type 0
Checked size (ok, r) = LineBounds r size
Checked size (again, r) = Inv r.line_state r r.pos × (r.pos ≡ size)
Checked size _ = Unit

line_end : Request → ℕ → ℕ
line_end r p = elim r.request_end [ none ↦ p | some e ↦ e ]

line_done-Checked :
    (size : ℕ) (r : Request) (p : ℕ) → AtDone r p → p < size → Checked size (line_done r p)
unfolding line_done
line_done-Checked size r p v h =
    elim (Bool-cases (r.http_major * 1000 + r.http_minor == 9 && not (r.method == Http.get))) [
      | inl e ↦ rw e tt
      | inr e ↦ rw e (record {
        method_within = omega arith;
        uri_after_method = omega arith;
        uri_nonempty = omega arith;
        parts_within = v.0.4;
        end_of_line = line_end r p;
        line_ends = unfold line_end in ground arith;
        uri_before_end = unfold line_end in ground arith;
        protocol_within = unfold line_end in ground arith;
        end_before_pos = unfold line_end in ground arith;
        pos_within = omega arith;
        restarted = refl;
      })
    ]

after_step-Checked :
    (size : ℕ) (o : Outcome LineState) (p : ℕ) (rest : LineState → Request → Code × Request)
    → p < size
    → InvAfter p o
    → ((s : LineState) (r : Request) → Inv s r (p + 1) → Checked size (rest s r))
    → Checked size (after_step o p rest)
after_step-Checked size (go s r) p rest h v k = k s r v
after_step-Checked size (done r) p rest h v k = line_done-Checked size r p v h
after_step-Checked size (finished r) p rest h v k = line_done-Checked size r p v h
after_step-Checked size (fail e r) p rest h v k = tt

Inv-moved :
    (s t : LineState) (r : Request) (p a : ℕ)
    → Inv s r p
    → Inv s (record r { pos = a; line_state = t }) p
Inv-moved start t r p a v = v
Inv-moved _ t r p a v = v

line_loop-Checked :
    (buf : Bytes) (size : ℕ) (rest : Bytes) (s : LineState) (r : Request) (p : ℕ)
    → Inv s r p
    → p + length rest ≡ size
    → Checked size (line_loop buf s r p rest)
unfolding line_loop
line_loop-Checked buf size [] s r p v h = (Inv-moved s s r p p v, omega arith)
line_loop-Checked buf size (ch ∷ rest) s r p v h =
    after_step-Checked size (step_line buf s r p ch) p _ (omega arith)
      (step_line-Inv buf s r p ch v)
      (λ s' r' v'. line_loop-Checked buf size rest s' r' (p + 1) v' (omega arith))

-- From a state whose pointers meet the invariant, such as that of a new request, a call either
-- ends a line with every pointer in its place, so that the lengths of the method, the URI, the
-- suffix, the arguments and the protocol are differences of numbers that stand in this order, and
-- the line lies within the buffer; or it stops at the buffer's end with the invariant kept, ready
-- to go on; or it reports an error.
pub parse_request_line-Checked :
    (buf : Bytes) (r : Request)
    → Inv r.line_state r r.pos
    → r.pos ≤ length buf
    → Checked (length buf) (parse_request_line buf r)
unfolding parse_request_line
parse_request_line-Checked buf r v h =
    line_loop-Checked buf (length buf) (drop r.pos buf) r.line_state r r.pos v
      (omega (arith, length-drop r.pos buf))

Inv-unset : (s : LineState) (r : Request) (p : ℕ) → Inv s r p → r.request_end ≡ none
Inv-unset start r p v = ground arith
Inv-unset _ r p v = ground arith

-- At the buffer's end the end of the line is not known.
pub again-unset :
    (buf : Bytes) (r q : Request)
    → Inv r.line_state r r.pos
    → r.pos ≤ length buf
    → parse_request_line buf r ≡ (again, q)
    → q.request_end ≡ none
again-unset buf r q v h e =
    let checked : Checked (length buf) (again, q) =
      rw e at (parse_request_line-Checked buf r v h) in
    Inv-unset q.line_state q q.pos checked.0

pub fresh-Inv : Inv fresh.line_state fresh fresh.pos
fresh-Inv = (refl, refl, refl, refl)
