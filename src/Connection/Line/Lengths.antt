-- ===== src/Connection/Line/Lengths.antt =====
-- The strings that `conn_read` cuts out of a parsed request line.
use evcp.Base.{
  ℕ, zero, suc, ◌+◌, ◌-◌, ◌<◌, ◌≤◌, ◌≡◌, refl, sym, ap, ◌∙◌, [], ◌∷◌, ◌++◌, Option, some, none,
  Bytes, length, take, drop, arith, ◌↔◌, ltb, Bool-cases, true, inl, inr, length-drop,
  length-append,
}
use evcp.Request.Line.Bounds.{LineBounds, IfSet}
use evcp.Request.Line.RoundTrip.{Verb, verb_name, IsPlain, line_text, version_text, parse-line_text}
use evcp.Request.Line.{parse_request_line}
use evcp.Request.{ok, Request, fresh}
use evcp.Connection.Headers.{slice, smallbuf}
use evcp.Connection.Line.{copy_str, line_strings, path_end, or_null}

length-take : (n : ℕ) (xs : Bytes) → n ≤ length xs → length (take n xs) ≡ n
length-take zero xs h = refl
length-take (suc n) [] h = elim h [ ]
length-take (suc n) (x ∷ xs) h = omega (arith, length-take n xs (omega arith))

length-slice : (buf : Bytes) (a b : ℕ) → b ≤ length buf → length (slice buf a b) ≡ b - a
length-slice buf a b h = length-take (b - a) (drop a buf) (omega (arith, length-drop a buf))

take_nil : (n : ℕ) → take {A = ℕ} n [] ≡ []
take_nil zero = refl
take_nil (suc n) = refl

drop_nil : (n : ℕ) → drop {A = ℕ} n [] ≡ []
drop_nil zero = refl
drop_nil (suc n) = refl

take-append-take : (n m : ℕ) (xs : Bytes) → take n xs ++ take m (drop n xs) ≡ take (n + m) xs
take-append-take zero m xs = ap (λ (k : ℕ). take k xs) (omega arith)
take-append-take (suc n) m [] = take_nil m ∙ sym (take_nil (suc n + m))
take-append-take (suc n) m (x ∷ xs) =
    ap (◌∷◌ x) (take-append-take n m xs)
    ∙ ap (λ (k : ℕ). take k (x ∷ xs)) {x = suc (n + m)} {y = suc n + m} (omega arith)

drop-drop : (n m : ℕ) (xs : Bytes) → drop m (drop n xs) ≡ drop (n + m) xs
drop-drop zero m xs = ap (λ (k : ℕ). drop k xs) (omega arith)
drop-drop (suc n) m [] = drop_nil m ∙ sym (drop_nil (suc n + m))
drop-drop (suc n) m (x ∷ xs) =
    drop-drop n m xs
    ∙ ap (λ (k : ℕ). drop k (x ∷ xs)) {x = suc (n + m)} {y = suc n + m} (omega arith)

slice-append :
    (buf : Bytes) (a b c : ℕ) → a ≤ b → b ≤ c → slice buf a b ++ slice buf b c ≡ slice buf a c
slice-append buf a b c h k =
    ap (λ d. take (b - a) (drop a buf) ++ take (c - b) d)
      (ap (λ (i : ℕ). drop i buf) {x = b} {y = a + (b - a)} (omega arith)
        ∙ sym (drop-drop a (b - a) buf))
    ∙ take-append-take (b - a) (c - b) (drop a buf)
    ∙ ap (λ (i : ℕ). take i (drop a buf)) (omega arith)

abbrev or_empty : Option Bytes → Bytes
or_empty none = []
or_empty (some t) = t

-- With arguments: the URI, the byte that the parser took for the "?", and the arguments make up the
-- unparsed URI, and no arguments are set only if there is no byte of them.
abbrev Divided : Bytes → Request → Option ℕ → Type 0
Divided buf r none =
    ((line_strings buf r).unparsed_uri ≡ (line_strings buf r).uri)
    × ((line_strings buf r).args ≡ none)
Divided buf r (some a) =
    ((line_strings buf r).unparsed_uri
      ≡ (line_strings buf r).uri ++ (slice buf (a - 1) a ++ or_empty (line_strings buf r).args))
    × ((length (or_empty (line_strings buf r).args) + a ≡ r.uri_end)
        × (((line_strings buf r).args ≡ none) ↔ (a ≡ r.uri_end)))

-- A string that begins at a pointer, if it is set, and goes on to the end of another string
abbrev EndOf : Bytes → ℕ → ℕ → Option ℕ → Bytes → Option Bytes → Type 0
EndOf buf start end none whole s = s ≡ none
EndOf buf start end (some p) whole s =
    (t : Bytes) × ((s ≡ some t) × ((length t + p ≡ end) × (whole ≡ slice buf start p ++ t)))

end_of :
    (buf : Bytes) (start end : ℕ) (o : Option ℕ)
    → IfSet o (λ p. (start ≤ p) × (p ≤ end))
    → end ≤ length buf
    → EndOf buf start end o
        (slice buf start end)
        (elim o [ none ↦ none | some p ↦ some (slice buf p end) ])
end_of buf start end none h k = refl
end_of buf start end (some p) h k = (
  slice buf p end,
  (refl, (omega (arith, length-slice buf p end k), sym (slice-append buf start p end h.0 h.1))),
)

less : {a n : ℕ} → ltb a n ≡ true → a < n
less y = ground arith

divided :
    (buf : Bytes) (r : Request) (o : Option ℕ)
    → r.args_start ≡ o
    → LineBounds r (length buf)
    → Divided buf r o
unfolding line_strings
divided buf r none e b = rw e (refl, refl)
divided buf r (some a) e b =
    let p : IfSet (some a)
        (λ k. (r.uri_start + 1 < k) × (k ≤ r.uri_end) × IfSet r.uri_ext (λ x. x < k)) =
      rw e at b.parts_within.1 in
    let whole = sym (
      ap (λ x. slice buf r.uri_start (a - 1) ++ x)
        (slice-append buf (a - 1) a r.uri_end (omega arith) p.1)
      ∙ slice-append buf r.uri_start (a - 1) r.uri_end (omega arith) (omega arith)) in
    let size = length-slice buf a r.uri_end (omega arith) in
    rw e (elim (Bool-cases (ltb a r.uri_end)) [
      | inl y ↦ rw y (
        whole,
        (omega (arith, size), ((λ f. absurd (cc)), (λ f. absurd (omega (arith, less y))))),
      )
      | inr n ↦
          let at_end : a ≡ r.uri_end = ground arith in
          rw n (
            whole
                ∙ ap (λ x. slice buf r.uri_start (a - 1) ++ (slice buf (a - 1) a ++ x))
                    (ap (λ (k : ℕ). take k (drop a buf)) {x = r.uri_end - a} {y = 0} (omega arith)),
            (omega arith, ((λ _. at_end), (λ _. refl))),
          )
    ])

-- The strings that fit the pointers of a finished request line.
pub record Cut (buf : Bytes) (r : Request) : Type 0 where
  pub uri_length : length (line_strings buf r).uri + r.uri_start ≡ path_end r
  pub uri_nonempty : 0 < length (line_strings buf r).uri
  pub unparsed_length : length (line_strings buf r).unparsed_uri + r.uri_start ≡ r.uri_end
  pub line_length :
      length (line_strings buf r).request_line + r.request_start ≡ or_null r.request_end
  pub method_length : length (line_strings buf r).method_name + r.request_start ≡ r.method_end + 1
  pub exten_within : IfSet r.uri_ext (λ x. (r.uri_start < x) × (x ≤ path_end r))
  pub exten_ends :
      EndOf buf r.uri_start
        (path_end r)
        r.uri_ext
        (line_strings buf r).uri
        (line_strings buf r).exten
  pub protocol_ends :
      EndOf buf r.request_start
        (or_null r.request_end)
        r.http_protocol
        (line_strings buf r).request_line
        (line_strings buf r).http_protocol
  pub divides : Divided buf r r.args_start

length-slice-add : (buf : Bytes) (a b : ℕ) → a ≤ b → b ≤ length buf → length (slice buf a b) + a ≡ b
length-slice-add buf a b h k = omega (arith, length-slice buf a b k)

path_end_within :
    (r : Request) (size : ℕ)
    → LineBounds r size
    → (r.uri_start < path_end r) × (path_end r ≤ r.uri_end)
path_end_within r size b = ground (arith, b.parts_within.1)

exten_place :
    (r : Request) (size : ℕ)
    → LineBounds r size
    → IfSet r.uri_ext (λ x. (r.uri_start < x) × (x ≤ path_end r))
exten_place r size b = ground (arith, b.parts_within.0, b.parts_within.1)

exten_in :
    (r : Request) (size : ℕ)
    → LineBounds r size
    → IfSet r.uri_ext (λ x. (r.uri_start ≤ x) × (x ≤ path_end r))
exten_in r size b = ground (arith, b.parts_within.0, b.parts_within.1)

protocol_in :
    (r : Request) (size : ℕ)
    → LineBounds r size
    → IfSet r.http_protocol (λ h. (r.request_start ≤ h) × (h ≤ or_null r.request_end))
protocol_in r size b = rw b.line_ends (placed r.http_protocol b.protocol_within)
  where
    placed :
        (o : Option ℕ)
        → IfSet o (λ h. (r.uri_end < h) × (h ≤ b.end_of_line))
        → IfSet o (λ h. (r.request_start ≤ h) × (h ≤ b.end_of_line))
    placed none h = tt
    placed (some p) (h, k) = (omega arith, k)

-- From a finished request line, whose pointers are in their places, no length underflows: the strings
-- have the lengths that the pointers say, the URI is not empty, the unparsed URI is the URI itself or
-- the URI with one byte and the arguments behind it, the suffix is the end of the URI from its pointer on, and
-- the protocol that of the request line.
pub line_strings-Cut : (buf : Bytes) (r : Request) → LineBounds r (length buf) → Cut buf r
unfolding line_strings
line_strings-Cut buf r b =
    let (start, stop) = path_end_within r (length buf) b in
    let line = length-slice-add buf r.request_start b.end_of_line (omega arith) (omega arith) in
    record {
      uri_length = length-slice-add buf r.uri_start (path_end r) (omega arith) (omega arith);
      uri_nonempty = omega (arith, length-slice buf r.uri_start (path_end r) (omega arith));
      unparsed_length = length-slice-add buf r.uri_start r.uri_end (omega arith) (omega arith);
      line_length = rw b.line_ends line;
      method_length =
          length-slice-add buf r.request_start (r.method_end + 1) (omega arith) (omega arith);
      exten_within = exten_place r (length buf) b;
      exten_ends =
          end_of buf r.uri_start (path_end r) r.uri_ext (exten_in r (length buf) b) (omega arith);
      protocol_ends =
          end_of buf r.request_start (or_null r.request_end) r.http_protocol
            (protocol_in r (length buf) b) (rw b.line_ends (omega arith));
      divides = divided buf r r.args_start refl b;
    }

copy_str_over : (cap : ℕ) (bytes : Bytes) → cap ≤ length bytes → copy_str cap bytes ≡ none
unfolding copy_str
copy_str_over cap bytes h = ground arith

length-line_text :
    (v : Verb) (path : Bytes) (major minor : ℕ) (rest : Bytes)
    → length (line_text v path major minor rest)
      ≡ length (verb_name v) + length path + length rest + 13
length-line_text v path major minor rest = omega (
  arith,
  length-append (verb_name v) (b' ' ∷ b'/' ∷ (path ++ b' ' ∷ version_text major minor rest)),
  length-append path (b' ' ∷ version_text major minor rest),
)

-- A plain request line of more than 1,012 bytes in its method and path is accepted, and its copy
-- then runs over the end of the scratch buffer.
pub long_line_overruns :
    (v : Verb) (path : Bytes) (major minor : ℕ) (rest : Bytes)
    → IsPlain path
    → (0 < major) × (major < 10)
    → minor < 10
    → 1012 < length (verb_name v) + length path
    → let buf = line_text v path major minor rest in
      let (code, r) = parse_request_line buf fresh in
      (code ≡ ok) × (copy_str smallbuf (line_strings buf r).request_line ≡ none)
long_line_overruns v path major minor rest h k l long =
    rw (parse-line_text v path major minor rest h k l) (
      refl,
      unfold line_strings in
          copy_str_over smallbuf _ (
            omega (
              arith,
              length-slice (line_text v path major minor rest) 0
                  (length (verb_name v) + length path + 11)
                  (omega (arith, length-line_text v path major minor rest)),
            )),
    )
