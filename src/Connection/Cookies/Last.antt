-- ===== src/Connection/Cookies/Last.antt =====
-- A header `Cookie` as a browser sends it, and what is kept of it.
use evcp.Base.{
  Bool-cases, inl, inr, if◌then◌else◌, ℕ, ◌≡◌, ◌≢◌, refl, ◌∙◌, ap, [], ◌∷◌, ◌++◌, List, some, false,
  Bytes, beq, codes, append_assoc, append-nil, arith,
}
use evcp.Base.Maps.{StrMap, lookup, insert}
use evcp.Connection.Cookies.{
  Cookie, Reader, State, name, param, equal, semicolon, value, expires, on, out, step_in,
  cookie_loop, saved, start_reader, decode_cookies, cookie_get, named,
}

-- Bytes of a name, or of a value.
abbrev pub IsName : Bytes → Type 0
IsName [] = Unit
IsName (c ∷ cs) = (c ≢ b'=') × (c ≢ b';') × IsName cs

abbrev pub IsValue : Bytes → Type 0
IsValue [] = Unit
IsValue (c ∷ cs) = (c ≢ b';') × IsValue cs

-- A cookie that a browser sends: a name that is not one of the attributes', and a value.
pub record Pair : Type 0 where
  pub first : ℕ
  pub others : Bytes
  pub head : ℕ
  pub tail : Bytes

abbrev pub pair_name : Pair → Bytes
pair_name q = q.first ∷ q.others

abbrev pub pair_value : Pair → Bytes
pair_value q = q.head ∷ q.tail

abbrev pub IsPair : Pair → Type 0
IsPair q =
    IsName (pair_name q)
    × IsValue (pair_value q)
    × (beq (pair_name q) (codes "expires") ≡ false)
    × (beq (pair_name q) (codes "path") ≡ false)
    × (beq (pair_name q) (codes "domain") ≡ false)

abbrev pub ArePairs : List Pair → Type 0
ArePairs [] = Unit
ArePairs (q ∷ qs) = IsPair q × ArePairs qs

-- `name=value; name=value; …`
abbrev pub pair_text : Pair → Bytes → Bytes
pair_text q rest = pair_name q ++ b'=' ∷ (pair_value q ++ rest)

abbrev pub more_text : List Pair → Bytes
more_text [] = []
more_text (q ∷ qs) = b';' ∷ b' ' ∷ pair_text q (more_text qs)

abbrev pub last_of : Pair → List Pair → Pair
last_of q [] = q
last_of q (r ∷ rs) = last_of r rs

-- A cookie without attributes.
abbrev pub plain : Bytes → Cookie
plain v = record { v = v; e = []; d = []; p = [] }

abbrev reading : State → Bytes → Bytes → Bytes → Reader
reading s k n v = record {
  state = s;
  k = k;
  v = v;
  n = n;
  e = [];
  p = [];
  d = [];
  o = expires;
  cookies = [];
}

cookie_loop-step :
    (r q : Reader) (c : ℕ) (cs : Bytes)
    → step_in r.state r c ≡ on q
    → cookie_loop r (c ∷ cs) ≡ cookie_loop q cs
unfolding cookie_loop
cookie_loop-step r q c cs e = rw (cookie_loop, e) refl

cookie_loop-name :
    (xs k n : Bytes) (rest : Bytes)
    → IsName xs
    → cookie_loop (reading name k n []) (xs ++ b'=' ∷ rest)
      ≡ cookie_loop (reading equal k (n ++ xs) []) rest
cookie_loop-name [] k n rest _ =
    cookie_loop-step (reading name k n []) (reading equal k n []) b'=' rest (unfold step_in in refl)
    ∙ rw append-nil refl
cookie_loop-name (c ∷ cs) k n rest (a, b, h) =
    cookie_loop-step (reading name k n []) (reading name k (n ++ c ∷ []) []) c (cs ++ b'=' ∷ rest)
      (unfold step_in in ground arith)
    ∙ cookie_loop-name cs k (n ++ c ∷ []) rest h
    ∙ rw append_assoc refl

cookie_loop-value :
    (xs k n v : Bytes) (rest : Bytes)
    → IsValue xs
    → cookie_loop (reading value k n v) (xs ++ rest)
      ≡ cookie_loop (reading value k n (v ++ xs)) rest
cookie_loop-value [] k n v rest _ = rw append-nil refl
cookie_loop-value (c ∷ cs) k n v rest (a, h) =
    cookie_loop-step (reading value k n v) (reading value k n (v ++ c ∷ [])) c (cs ++ rest)
      (unfold step_in in ground arith)
    ∙ cookie_loop-value cs k n (v ++ c ∷ []) rest h
    ∙ rw append_assoc refl

cookie_loop-equal :
    (q : Pair) (k n : Bytes) (v : Bytes) (rest : Bytes)
    → IsValue (pair_value q)
    → cookie_loop (reading equal k n v) (pair_value q ++ rest)
      ≡ cookie_loop (reading value k n (pair_value q)) rest
cookie_loop-equal q k n v rest (a, h) =
    cookie_loop-step (reading equal k n v) (reading value k n (q.head ∷ [])) (q.head)
      (q.tail ++ rest) (unfold step_in in ground arith)
    ∙ cookie_loop-value (q.tail) k n (q.head ∷ []) rest h

cookie_loop-param :
    (xs k n v : Bytes) (rest : Bytes)
    → IsName xs
    → cookie_loop (reading param k n v) (xs ++ b'=' ∷ rest)
      ≡ cookie_loop (named (reading param (k ++ xs) n v)) rest
cookie_loop-param [] k n v rest _ =
    cookie_loop-step (reading param k n v) (named (reading param k n v)) b'=' rest
      (unfold step_in in refl)
    ∙ rw append-nil refl
cookie_loop-param (c ∷ cs) k n v rest (a, b, h) =
    cookie_loop-step (reading param k n v) (reading param (k ++ c ∷ []) n v) c (cs ++ b'=' ∷ rest)
      (unfold step_in in ground arith)
    ∙ cookie_loop-param cs (k ++ c ∷ []) n v rest h
    ∙ rw append_assoc refl

-- A further cookie takes the place of the one that was read before it.
cookie_loop-further :
    (q : Pair) (k n v : Bytes) (rest : Bytes)
    → IsPair q
    → cookie_loop (reading value k n v) (b';' ∷ b' ' ∷ pair_text q rest)
      ≡ cookie_loop (reading value (pair_name q) (pair_name q) (pair_value q)) rest
cookie_loop-further q k n v rest (names, values, no_e, no_p, no_d) =
    cookie_loop-step (reading value k n v) (reading semicolon k n v) b';' (b' ' ∷ pair_text q rest)
      (unfold step_in in refl)
    ∙ cookie_loop-step (reading semicolon k n v) (reading param [] n v) b' ' (pair_text q rest)
        (unfold step_in in refl)
    ∙ cookie_loop-param (pair_name q) [] n v (pair_value q ++ rest) names
    ∙ ap (λ r. cookie_loop r (pair_value q ++ rest)) (rw (no_e, no_p, no_d) refl)
    ∙ cookie_loop-equal q (pair_name q) (pair_name q) [] rest values

cookie_loop-more :
    (qs : List Pair) (q : Pair) (k : Bytes)
    → ArePairs qs
    → (j : Bytes) × (cookie_loop (reading value k (pair_name q) (pair_value q)) (more_text qs)
        ≡ out (reading value j (pair_name (last_of q qs)) (pair_value (last_of q qs))))
cookie_loop-more [] q k _ = (k, unfold cookie_loop in refl)
cookie_loop-more (r ∷ rs) q k (h, hs) =
    let (j, e) = cookie_loop-more rs r (pair_name r) hs in
    (j, cookie_loop-further r k (pair_name q) (pair_value q) (more_text rs) h ∙ e)

cookie_loop-first :
    (q : Pair) (rest : Bytes)
    → IsPair q
    → cookie_loop start_reader (pair_text q rest)
      ≡ cookie_loop (reading value [] (pair_name q) (pair_value q)) rest
cookie_loop-first q rest ((a, b, names), values, no_e, no_p, no_d) =
    cookie_loop-step start_reader (reading name [] (q.first ∷ []) []) (q.first)
      (q.others ++ b'=' ∷ (pair_value q ++ rest)) (unfold step_in in ground arith)
    ∙ cookie_loop-name (q.others) [] (q.first ∷ []) (pair_value q ++ rest) names
    ∙ cookie_loop-equal q [] (pair_name q) [] rest values

decode_cookies-text :
    (headers : StrMap) (text : Bytes)
    → lookup (codes "Cookie") headers ≡ some text
    → decode_cookies headers ≡ saved (cookie_loop start_reader text)
unfolding decode_cookies
decode_cookies-text headers text e = rw (decode_cookies, e) refl

-- Of a header `Cookie` that holds one or more cookies `name=value`, with "; " between them, whose
-- names are none of the attributes' and whose values are not empty, the last cookie is kept with its
-- whole value, and all those before it are lost.
pub decode_cookies-last :
    (headers : StrMap) (q : Pair) (qs : List Pair)
    → IsPair q
    → ArePairs qs
    → lookup (codes "Cookie") headers ≡ some (pair_text q (more_text qs))
    → decode_cookies headers ≡ (pair_name (last_of q qs), plain (pair_value (last_of q qs))) ∷ []
decode_cookies-last headers q qs h hs e =
    let (j, f) = cookie_loop-more qs q [] hs in
    decode_cookies-text headers (pair_text q (more_text qs)) e
    ∙ ap saved (cookie_loop-first q (more_text qs) h ∙ f)
    ∙ (unfold insert beq in refl)

cookie_get-one :
    (k n : Bytes) (c : Cookie) → cookie_get k ((n, c) ∷ []) ≡ (if beq n k then c.v else [])
unfolding cookie_get lookup
cookie_get-one k n c = elim (Bool-cases (beq n k)) [
  | inl y ↦ rw (cookie_get, lookup, y) refl
  | inr y ↦ rw (cookie_get, lookup, y) refl
]

-- From such a header `cookieGet` returns the value of the last cookie for its name, and the empty
-- string for every other name, also for those of the cookies in front of it.
cookie_get-last :
    (headers : StrMap) (q : Pair) (qs : List Pair) (k : Bytes)
    → IsPair q
    → ArePairs qs
    → lookup (codes "Cookie") headers ≡ some (pair_text q (more_text qs))
    → cookie_get k (decode_cookies headers)
      ≡ (if beq (pair_name (last_of q qs)) k then pair_value (last_of q qs) else [])
cookie_get-last headers q qs k h hs e =
    ap (cookie_get k) (decode_cookies-last headers q qs h hs e)
    ∙ cookie_get-one k (pair_name (last_of q qs)) (plain (pair_value (last_of q qs)))
