-- ===== src/Request/Method.antt =====
-- src/core/request.cpp: the `switch (p - m)` that recognises a method's name.
use evcp.Request.Http
use native.Mathlib.Decide.{dec_le}
use evcp.Base.{
  ℕ, ◌+◌, ◌≤◌, ◌-◌, ◌≡◌, refl, Bool, true, ◌&&◌, [], ◌∷◌, ◌++◌, ◌==◌, Bytes, get_or, get_or-append,
  length, if◌then◌else◌, codes, arith,
}

-- `m[0] == c0 && m[1] == c1 && …`
unfoldable pub str_cmp : Bytes → ℕ → Bytes → Bool
str_cmp buf m [] = true
str_cmp buf m (c ∷ cs) = get_or buf m 0 == c && str_cmp buf (m + 1) cs

-- `ngx_str3Ocmp`: the second character was tested before
abbrev str3_o_cmp : Bytes → ℕ → ℕ → ℕ → ℕ → Bool
str3_o_cmp buf m c0 c2 c3 =
    get_or buf m 0 == c0 && get_or buf (m + 2) 0 == c2 && get_or buf (m + 3) 0 == c3

-- `case 3`: a name that is not known leaves `r->method` as it was
method_3 : Bytes → ℕ → ℕ → ℕ
method_3 buf m old =
    if str_cmp buf m (codes "GET")
    then Http.get
    else if str_cmp buf m (codes "PUT")
    then Http.put
    else old

-- `case 4`
method_4 : Bytes → ℕ → ℕ → ℕ
method_4 buf m old =
    if get_or buf (m + 1) 0 == b'O'
    then if str3_o_cmp buf m b'P' b'S' b'T'
      then Http.post
      else if str3_o_cmp buf m b'C' b'P' b'Y'
      then Http.copy
      else if str3_o_cmp buf m b'M' b'V' b'E'
      then Http.move
      else if str3_o_cmp buf m b'L' b'C' b'K'
      then Http.lock
      else old
    else if str_cmp buf m (codes "HEAD")
    then Http.head
    else old

-- `case 5`
method_5 : Bytes → ℕ → ℕ → ℕ
method_5 buf m old =
    let first = if str_cmp buf m (codes "MKCOL") then Http.mkcol else old in
    if str_cmp buf m (codes "TRACE") then Http.trace else first

-- `case 6`
method_6 : Bytes → ℕ → ℕ → ℕ
method_6 buf m old =
    if str_cmp buf m (codes "DELETE")
    then Http.delete
    else if str_cmp buf m (codes "UNLOCK")
    then Http.unlock
    else old

-- `switch (p - m)`: the method for the `n` characters at `m`
method_switch : Bytes → ℕ → ℕ → ℕ → ℕ
method_switch buf m n old =
    if n == 3
    then method_3 buf m old
    else if n == 4
    then method_4 buf m old
    else if n == 5
    then method_5 buf m old
    else if n == 6
    then method_6 buf m old
    else if n == 7
    then if str_cmp buf m (codes "OPTIONS") then Http.options else old
    else if n == 8
    then if str_cmp buf m (codes "PROPFIND") then Http.propfind else old
    else if n == 9
    then if str_cmp buf m (codes "PROPPATCH") then Http.proppatch else old
    else old

-- The same, open to the parser.
unfoldable pub method_of : Bytes → ℕ → ℕ → ℕ → ℕ
unfolding str_cmp method_3 method_4 method_5 method_6 method_switch
method_of = method_switch

-- What is found depends on the `n` characters alone: more input behind them changes nothing.
pub str_cmp-append :
    (buf more : Bytes) (m : ℕ) (cs : Bytes)
    → m + length cs ≤ length buf
    → str_cmp (buf ++ more) m cs ≡ str_cmp buf m cs
unfolding str_cmp
str_cmp-append buf more m [] h = refl
str_cmp-append buf more m (c ∷ cs) h =
    rw (get_or-append buf more m 0 (omega arith), str_cmp-append buf more (m + 1) cs (omega arith))

module _ (buf more : Bytes) (m old : ℕ) where
  method_3-append : m + 3 ≤ length buf → method_3 (buf ++ more) m old ≡ method_3 buf m old
  unfolding method_3
  method_3-append h =
      ground (
        arith,
        str_cmp-append buf more m (codes "GET") h,
        str_cmp-append buf more m (codes "PUT") h,
      )

  method_4-append : m + 4 ≤ length buf → method_4 (buf ++ more) m old ≡ method_4 buf m old
  unfolding method_4
  method_4-append h = rw (
    get_or-append buf more m 0 (omega arith),
    get_or-append buf more (m + 1) 0 (omega arith),
    get_or-append buf more (m + 2) 0 (omega arith),
    get_or-append buf more (m + 3) 0 (omega arith),
    str_cmp-append buf more m (codes "HEAD") h,
  )

  method_5-append : m + 5 ≤ length buf → method_5 (buf ++ more) m old ≡ method_5 buf m old
  unfolding method_5
  method_5-append h =
      rw (str_cmp-append buf more m (codes "MKCOL") h, str_cmp-append buf more m (codes "TRACE") h)

  method_6-append : m + 6 ≤ length buf → method_6 (buf ++ more) m old ≡ method_6 buf m old
  unfolding method_6
  method_6-append h =
      rw
        (str_cmp-append buf more m (codes "DELETE") h, str_cmp-append buf more m (codes "UNLOCK") h)

  method_switch-append :
      (n : ℕ) → m + n ≤ length buf → method_switch (buf ++ more) m n old ≡ method_switch buf m n old
  unfolding method_switch
  method_switch-append n h = ground (
    arith,
    method_3-append,
    method_4-append,
    method_5-append,
    method_6-append,
    str_cmp-append buf more m (codes "OPTIONS"),
    str_cmp-append buf more m (codes "PROPFIND"),
    str_cmp-append buf more m (codes "PROPPATCH"),
  )

-- The method's name lies before the `p` that is reached.
pub method_of-append :
    (buf more : Bytes) (m old p : ℕ)
    → p ≤ length buf
    → method_of (buf ++ more) m (p - m) old ≡ method_of buf m (p - m) old
unfolding method_of
method_of-append buf more m old p h = elim (dec_le m p) [
  | yes le ↦ method_switch-append buf more m old (p - m) (omega arith)
  | no gt ↦ let e : p - m ≡ 0 = omega arith in rw e
]
