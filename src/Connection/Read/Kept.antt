-- ===== src/Connection/Read/Kept.antt =====
-- src/core/request.cpp: what each of the two parsers leaves alone of what the other one keeps.
use evcp.Base.{ℕ, ◌+◌, ◌≡◌, refl, ◌∙◌, [], ◌∷◌, Bool, Bytes, drop, arith}
use evcp.Request.{Code, LineState, HeaderState, start, Request, Outcome, go, done, finished, fail}
use evcp.Request.Line.{step_line, line_done, after_step, line_loop, parse_request_line}
use evcp.Request.Header.{
  Local, step_header, header_loop, parse_header_line, after_step as after_header_step,
}

-- The fields of the header lines' parser
abbrev pub Keeps : Request → Request → Type 0
Keeps r q =
    (q.header_state ≡ r.header_state)
    × ((q.lowcase_index ≡ r.lowcase_index) × (q.lowcase_header ≡ r.lowcase_header))

abbrev OutcomeKeeps : Request → Outcome LineState → Type 0
OutcomeKeeps r (go s q) = Keeps r q
OutcomeKeeps r (done q) = Keeps r q
OutcomeKeeps r (finished q) = Keeps r q
OutcomeKeeps r (fail e q) = Keeps r q

step_line-Keeps :
    (buf : Bytes) (s : LineState) (r : Request) (p ch : ℕ) → OutcomeKeeps r (step_line buf s r p ch)
unfolding step_line
step_line-Keeps buf start r p ch = ground arith
step_line-Keeps buf _ r p ch = ground arith

line_done-Keeps : (r q : Request) (p : ℕ) → Keeps r q → Keeps r (line_done q p).1
unfolding line_done
line_done-Keeps r q p h = ground arith

Keeps-trans : (a b c : Request) → Keeps a b → Keeps b c → Keeps a c
Keeps-trans a b c (e, (f, g)) (e', (f', g')) = (e' ∙ e, (f' ∙ f, g' ∙ g))

after_step-Keeps :
    (r : Request) (o : Outcome LineState) (p : ℕ) (rest : LineState → Request → Code × Request)
    → OutcomeKeeps r o
    → ((s : LineState) (q : Request) → Keeps q (rest s q).1)
    → Keeps r (after_step o p rest).1
after_step-Keeps r (go s q) p rest h k = Keeps-trans r q (rest s q).1 h (k s q)
after_step-Keeps r (done q) p rest h k = line_done-Keeps r q p h
after_step-Keeps r (finished q) p rest h k = line_done-Keeps r q p h
after_step-Keeps r (fail e q) p rest h k = h

line_loop-Keeps :
    (buf rest : Bytes) (s : LineState) (r : Request) (p : ℕ) → Keeps r (line_loop buf s r p rest).1
unfolding line_loop
line_loop-Keeps buf [] s r p = (refl, (refl, refl))
line_loop-Keeps buf (ch ∷ rest) s r p =
    after_step-Keeps r (step_line buf s r p ch) p _ (step_line-Keeps buf s r p ch)
      (λ s' q. line_loop-Keeps buf rest s' q (p + 1))

pub parse_request_line-Keeps : (buf : Bytes) (r : Request) → Keeps r (parse_request_line buf r).1
unfolding parse_request_line
parse_request_line-Keeps buf r = line_loop-Keeps buf (drop r.pos buf) r.line_state r r.pos

-- The end of the request line
abbrev LineEnds : Request → Outcome Local → Type 0
LineEnds r (go s q) = q.request_end ≡ r.request_end
LineEnds r (done q) = q.request_end ≡ r.request_end
LineEnds r (finished q) = q.request_end ≡ r.request_end
LineEnds r (fail e q) = q.request_end ≡ r.request_end

step_header-LineEnds :
    (buf : Bytes) (under : Bool) (s : HeaderState) (i : ℕ) (r : Request) (p ch : ℕ)
    → LineEnds r (step_header buf under s i r p ch)
unfolding step_header
step_header-LineEnds buf under start i r p ch = ground arith
step_header-LineEnds buf under _ i r p ch = ground arith

after_header_step-LineEnds :
    (r : Request) (o : Outcome Local) (i p : ℕ) (rest : HeaderState → ℕ → Request → Code × Request)
    → LineEnds r o
    → ((s : HeaderState) (j : ℕ) (q : Request) → (rest s j q).1.request_end ≡ q.request_end)
    → (after_header_step o i p rest).1.request_end ≡ r.request_end
after_header_step-LineEnds r (go (s, j) q) i p rest h k = k s j q ∙ h
after_header_step-LineEnds r (done q) i p rest h k = h
after_header_step-LineEnds r (finished q) i p rest h k = h
after_header_step-LineEnds r (fail e q) i p rest h k = h

header_loop-request_end :
    (buf : Bytes) (under : Bool) (rest : Bytes) (s : HeaderState) (i : ℕ) (r : Request) (p : ℕ)
    → (header_loop buf under s i r p rest).1.request_end ≡ r.request_end
unfolding header_loop
header_loop-request_end buf under [] s i r p = refl
header_loop-request_end buf under (ch ∷ rest) s i r p =
    after_header_step-LineEnds r (step_header buf under s i r p ch) i p _
      (step_header-LineEnds buf under s i r p ch)
      (λ s' j q. header_loop-request_end buf under rest s' j q (p + 1))

pub parse_header_line-request_end :
    (buf : Bytes) (under : Bool) (r : Request)
    → (parse_header_line buf under r).1.request_end ≡ r.request_end
unfolding parse_header_line
parse_header_line-request_end buf under r =
    header_loop-request_end buf under (drop r.pos buf) r.header_state r.lowcase_index r r.pos
