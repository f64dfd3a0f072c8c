-- ===== src/Connection/Read/Appended.antt =====
-- src/core/connection.cpp, `conn_read`: the strings of a request line in a buffer that has got more bytes.
use evcp.Base.{
  ℕ, ◌+◌, ◌-◌, ◌<◌, ◌≤◌, ◌≡◌, inl, inr, ap, refl, sym, subst, ◌++◌, Option, none, some, Bytes,
  length, arith, if◌then◌else◌, ltb, Bool-cases,
}
use evcp.Request.{Request}
use evcp.Request.Line.Bounds.{LineBounds, IfSet}
use evcp.Connection.Headers.{slice}
use evcp.Connection.Headers.Parts.{slice_of_part}
use evcp.Connection.Line.{Strings, line_strings, refuses_uri, path_end, or_null}

ext_within :
    (start end : ℕ) (u a : Option ℕ)
    → IfSet u (λ x. (start < x) × (x ≤ end))
    → IfSet a (λ a'. (start + 1 < a') × (a' ≤ end) × IfSet u (λ x. x < a'))
    → IfSet u (λ x. x ≤ elim a [ none ↦ end | some a' ↦ a' - 1 ])
ext_within start end none a h k = tt
ext_within start end (some x) none h k = h.1
ext_within start end (some x) (some a) h k = omega arith

path_within :
    (start end : ℕ) (u a : Option ℕ)
    → start < end
    → IfSet a (λ a'. (start + 1 < a') × (a' ≤ end) × IfSet u (λ x. x < a'))
    → (start ≤ elim a [ none ↦ end | some a' ↦ a' - 1 ])
      × (elim a as (λ _. ℕ) [ none ↦ end | some a' ↦ a' - 1 ] ≤ end)
path_within start end u none h k = omega arith
path_within start end u (some a) h k = omega arith

-- A string that is there if its start is
optional-append :
    (buf more : Bytes) (o : Option ℕ) (e : ℕ)
    → IfSet o (λ x. x ≤ e)
    → e ≤ length buf
    → elim o [ none ↦ none | some x ↦ some (slice (buf ++ more) x e) ]
      ≡ elim o as (λ _. Option Bytes) [ none ↦ none | some x ↦ some (slice buf x e) ]
optional-append buf more none e h k = refl
optional-append buf more (some x) e h k = ap some (slice_of_part buf more x e h k)

args-append :
    (buf more : Bytes) (o : Option ℕ) (e : ℕ)
    → e ≤ length buf
    → elim o [ none ↦ none | some x ↦ if ltb x e then some (slice (buf ++ more) x e) else none ]
      ≡ elim o as (λ _. Option Bytes) [
        | none ↦ none
        | some x ↦ if ltb x e then some (slice buf x e) else none
      ]
args-append buf more none e k = refl
args-append buf more (some x) e k = elim (Bool-cases (ltb x e)) [
  | inl y ↦ rw y (ap some (slice_of_part buf more x e (ground arith) k))
  | inr n ↦ rw n refl
]

protocol_within : (h : Option ℕ) (n e : ℕ) → IfSet h (λ x. (n < x) × (x ≤ e)) → IfSet h (λ x. x ≤ e)
protocol_within none n e k = tt
protocol_within (some x) n e k = k.1

abbrev strings :
    Bytes → Bytes → Bytes → Bytes → Option Bytes → Option Bytes → Option Bytes → Strings
strings a b c d e f g = record {
  request_line = a;
  uri = b;
  unparsed_uri = c;
  method_name = d;
  http_protocol = e;
  exten = f;
  args = g;
}

same_strings :
    {a a' b b' c c' d d' : Bytes} {e e' f f' g g' : Option Bytes}
    → a ≡ a'
    → b ≡ b'
    → c ≡ c'
    → d ≡ d'
    → e ≡ e'
    → f ≡ f'
    → g ≡ g'
    → strings a b c d e f g ≡ strings a' b' c' d' e' f' g'
same_strings a b c d e f g = rw (a, b, c, d, e, f, g) refl

pub line_strings-append :
    (buf more : Bytes) (r : Request)
    → LineBounds r (length buf)
    → line_strings (buf ++ more) r ≡ line_strings buf r
unfolding line_strings
line_strings-append buf more r b =
    let (from, to) =
      path_within r.uri_start r.uri_end r.uri_ext r.args_start b.uri_nonempty b.parts_within.1 in
    let end_at : or_null r.request_end ≡ b.end_of_line = ap or_null b.line_ends in
    let e1 : slice (buf ++ more) r.request_start (or_null r.request_end)
        ≡ slice buf r.request_start (or_null r.request_end) =
      slice_of_part buf more _ _
        (omega (
          arith, end_at, b.method_within, b.uri_after_method, b.uri_nonempty, b.uri_before_end,
          b.end_before_pos, b.pos_within,
        ))
        (omega (
          arith, end_at, b.method_within, b.uri_after_method, b.uri_nonempty, b.uri_before_end,
          b.end_before_pos, b.pos_within,
        )) in
    let e2 : slice (buf ++ more) r.uri_start (path_end r) ≡ slice buf r.uri_start (path_end r) =
      slice_of_part buf more _ _ from (
        omega (
          arith, b.method_within, b.uri_after_method, b.uri_nonempty, b.uri_before_end,
          b.end_before_pos, b.pos_within, to,
        )) in
    let e3 : slice (buf ++ more) r.uri_start r.uri_end ≡ slice buf r.uri_start r.uri_end =
      slice_of_part buf more _ _
        (omega (
          arith, b.method_within, b.uri_after_method, b.uri_nonempty, b.uri_before_end,
          b.end_before_pos, b.pos_within,
        ))
        (omega (
          arith, b.method_within, b.uri_after_method, b.uri_nonempty, b.uri_before_end,
          b.end_before_pos, b.pos_within,
        )) in
    let e4 : slice (buf ++ more) r.request_start (r.method_end + 1)
        ≡ slice buf r.request_start (r.method_end + 1) =
      slice_of_part buf more _ _
        (omega (
          arith, b.method_within, b.uri_after_method, b.uri_nonempty, b.uri_before_end,
          b.end_before_pos, b.pos_within,
        ))
        (omega (
          arith, b.method_within, b.uri_after_method, b.uri_nonempty, b.uri_before_end,
          b.end_before_pos, b.pos_within,
        )) in
    let protocol =
      subst (λ (k : ℕ). IfSet r.http_protocol (λ x. x ≤ k)) (sym end_at)
        (protocol_within r.http_protocol r.uri_end b.end_of_line b.protocol_within) in
    let e5 = optional-append buf more r.http_protocol (or_null r.request_end) protocol (
      omega (
        arith, end_at, b.method_within, b.uri_after_method, b.uri_nonempty, b.uri_before_end,
        b.end_before_pos, b.pos_within,
      )) in
    let e6 =
      optional-append buf more r.uri_ext (path_end r)
        (ext_within r.uri_start r.uri_end r.uri_ext r.args_start b.parts_within.0 b.parts_within.1)
        (omega (
          arith, b.method_within, b.uri_after_method, b.uri_nonempty, b.uri_before_end,
          b.end_before_pos, b.pos_within, to,
        )) in
    let e7 = args-append buf more r.args_start r.uri_end (
      omega (
        arith, b.method_within, b.uri_after_method, b.uri_nonempty, b.uri_before_end,
        b.end_before_pos, b.pos_within,
      )) in
    same_strings e1 e2 e3 e4 e5 e6 e7

pub refuses_uri-append :
    (buf more : Bytes) (r : Request)
    → LineBounds r (length buf)
    → refuses_uri (buf ++ more) r ≡ refuses_uri buf r
unfolding refuses_uri
refuses_uri-append buf more r b =
    rw
      (slice_of_part buf more r.uri_start r.uri_end (omega (arith, b.uri_nonempty))
        (omega (arith, b.uri_before_end, b.end_before_pos, b.pos_within)))
      refl
