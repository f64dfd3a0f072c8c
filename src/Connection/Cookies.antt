-- ===== src/Connection/Cookies.antt =====
-- src/core/connection.cpp, `sp_decode_cookies` and `cookieGet`: the cookies of a request.
pub mod Last
use evcp.Base.{
  ℕ, [], ◌∷◌, ◌++◌, List, Option, none, some, ◌&&◌, not, Bytes, ◌==◌, if◌then◌else◌, beq, codes,
}
use evcp.Base.Maps.{StrMap, insert, lookup}

-- `class Cookie`: value, expiry, domain and path
pub record Cookie : Type 0 where
  pub v : Bytes
  pub e : Bytes
  pub d : Bytes
  pub p : Bytes

abbrev pub CookieMap : Type 0
CookieMap = List (Bytes × Cookie)

pub data State : Type 0 where
  start name param equal pequal semicolon psemicolon space value pvalue fin err : State

-- What `O` points to.
pub data Attribute : Type 0 where
  expires path domain : Attribute

-- The local variables `K`, `V`, `N`, `E`, `P`, `D`, `O` and the map. `O` is read only after it is set.
pub record Reader : Type 0 where
  pub state : State
  pub k : Bytes
  pub v : Bytes
  pub n : Bytes
  pub e : Bytes
  pub p : Bytes
  pub d : Bytes
  pub o : Attribute
  pub cookies : CookieMap

-- After a byte: `on` with the next one, `out` of the loop, or `gone` out of the function.
pub data Next : Type 0 where
  on out gone : Reader → Next

-- `*O = c`
abbrev begin_attribute : Attribute → Reader → ℕ → Reader
begin_attribute expires r c = record r { e = c ∷ [] }
begin_attribute path r c = record r { p = c ∷ [] }
begin_attribute domain r c = record r { d = c ∷ [] }

-- `*O += c`
abbrev add_attribute : Attribute → Reader → ℕ → Reader
add_attribute expires r c = record r { e = r.e ++ c ∷ [] }
add_attribute path r c = record r { p = r.p ++ c ∷ [] }
add_attribute domain r c = record r { d = r.d ++ c ∷ [] }

-- `(*r->headers.cookies)[N] = CC`
abbrev save : Reader → Reader
save r = record r { cookies = insert r.n (record { v = r.v; e = r.e; d = r.d; p = r.p }) r.cookies }

-- `case name`
unfoldable pub step_name : Reader → ℕ → Next
step_name r c =
    if c == b'='
    then on (record r { state = equal })
    else if c == b';'
    then gone (record r { state = err })
    else on (record r { n = r.n ++ c ∷ [] })

-- `case equal`
unfoldable pub step_equal : Reader → ℕ → Next
step_equal r c =
    if c == b';' then on (record r { state = err }) else on (record r { v = c ∷ []; state = value })

-- `case value`
unfoldable pub step_value : Reader → ℕ → Next
step_value r c =
    if c == b';' then on (record r { state = semicolon }) else on (record r { v = r.v ++ c ∷ [] })

-- `case semicolon`: the byte behind it is dropped.
unfoldable pub step_semicolon : Reader → ℕ → Next
step_semicolon r c =
    if c == b';'
    then on r
    else if c == b'='
    then on (record r { state = equal })
    else on (record r { k = []; state = param })

-- `case param` at '='
abbrev pub named : Reader → Reader
named r =
    if beq r.k (codes "expires")
    then record r { o = expires; state = pequal }
    else if beq r.k (codes "path")
    then record r { o = path; state = pequal }
    else if beq r.k (codes "domain")
    then record r { o = domain; state = pequal }
    else record r { n = r.k; v = []; state = equal }

-- `case param`
unfoldable pub step_param : Reader → ℕ → Next
unfolding beq
step_param r c =
    if c == b'='
    then on (named r)
    else if c == b';'
    then gone (record r { state = err })
    else on (record r { k = r.k ++ c ∷ [] })

-- `case pequal`, `case pvalue` and `case psemicolon`
unfoldable pub step_pequal : Reader → ℕ → Next
step_pequal r c =
    if c == b';'
    then on (record r { state = err })
    else let r' = begin_attribute r.o r c in on (record r' { state = pvalue })

unfoldable pub step_pvalue : Reader → ℕ → Next
step_pvalue r c =
    if c == b';' then on (record r { state = psemicolon }) else on (add_attribute r.o r c)

unfoldable pub step_psemicolon : Reader → ℕ → Next
step_psemicolon r c =
    if c == b';'
    then on r
    else if c == b'='
    then on (record r { state = pequal })
    else on (record r { k = []; state = param })

-- `switch(state)`; there is no case for `space`.
unfoldable pub step_in : State → Reader → ℕ → Next
unfolding step_name step_equal step_value step_semicolon step_param step_pequal step_pvalue
    step_psemicolon insert
step_in start r c =
    step_name (record r { k = []; v = []; n = []; e = []; p = []; d = []; state = name }) c
step_in name r c = step_name r c
step_in param r c = step_param r c
step_in equal r c = step_equal r c
step_in pequal r c = step_pequal r c
step_in semicolon r c = step_semicolon r c
step_in psemicolon r c = step_psemicolon r c
step_in space r c = on r
step_in value r c = step_value r c
step_in pvalue r c = step_pvalue r c
step_in fin r c = let r' = save r in on (record r' { state = start })
step_in err r c = out r

-- The loop over the bytes of the header
unfoldable pub cookie_loop : Reader → Bytes → Next
unfolding step_in
cookie_loop r [] = out r
cookie_loop r (c ∷ cs) = elim (step_in r.state r c) [
  | on r' ↦ cookie_loop r' cs
  | out r' ↦ out r'
  | gone r' ↦ gone r'
]

-- `if(N!="" && V!="")`, after the loop
abbrev pub save_last : Reader → CookieMap
save_last r = if not (beq r.n []) && not (beq r.v []) then (save r).cookies else r.cookies

abbrev pub saved : Next → CookieMap
saved (on r) = save_last r
saved (out r) = save_last r
saved (gone r) = r.cookies

abbrev pub start_reader : Reader
start_reader = record {
  state = start;
  k = [];
  v = [];
  n = [];
  e = [];
  p = [];
  d = [];
  o = expires;
  cookies = [];
}

-- `sp_decode_cookies`: of the headers, only the one named `Cookie` is read.
unfoldable pub decode_cookies : StrMap → CookieMap
unfolding lookup cookie_loop beq insert
decode_cookies headers = elim (lookup (codes "Cookie") headers) [
  | none ↦ []
  | some text ↦ saved (cookie_loop start_reader text)
]

-- `cookieGet`
unfoldable pub cookie_get : Bytes → CookieMap → Bytes
unfolding lookup
cookie_get key m = elim (lookup key m) [ none ↦ [] | some c ↦ c.v ]
