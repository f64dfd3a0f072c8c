-- ===== src/Connection/Values.antt =====
-- src/core/connection.cpp, `sp_read_http_values`: the variables of a query string or of the body of
-- a form.
pub mod RoundTrip
use evcp.Base.{
  ℕ, ◌+◌, ◌-◌, ◌*◌, ◌%◌, [], ◌∷◌, ◌++◌, ◌||◌, not, Bool, true, false, Bytes, ◌==◌, within,
  if◌then◌else◌, beq, drop, take,
}
use evcp.Base.Maps.{StrMap, insert}
use evcp.Request.Chars.{lf, cr, is_digit}

pub data State : Type 0 where
  name equal amp value value_percent value_percent2 : State

-- The local variables: `h` is the byte that an escape has given so far.
pub record Reader : Type 0 where
  pub state : State
  pub key : Bytes
  pub val : Bytes
  pub h : ℕ
  pub map : StrMap

abbrev add_val : Reader → ℕ → Reader
add_val r c = record r { val = r.val ++ c ∷ [] }

-- `case '&'` where a value is read
abbrev close_value : Reader → Reader
close_value r = record r { map = insert r.key r.val r.map; key = []; val = []; state = amp }

-- `case name`
unfoldable pub step_name : Reader → ℕ → Reader
unfolding beq
step_name r c =
    if c == b'='
    then record r { state = equal }
    else if c == b'&'
    then record r { map = if beq r.key [] then r.map else insert r.key [] r.map; state = amp }
    else if c == b'+'
    then record r { key = r.key ++ b' ' ∷ [] }
    else record r { key = r.key ++ c ∷ [] }

-- `case value`
unfoldable pub step_value : Reader → ℕ → Reader
step_value r c =
    if c == b'%'
    then record r { state = value_percent }
    else if c == b'&'
    then close_value r
    else if c == b'+'
    then add_val r b' '
    else add_val r c

abbrev low_hex : ℕ → Bool
low_hex c = within b'a' b'f' c

abbrev high_hex : ℕ → Bool
high_hex c = within b'A' b'F' c

-- The first hexadecimal digit of an escape; `h` is a byte.
abbrev first_digit : Reader → ℕ → Reader
first_digit r d = record r { h = (d * 16) % 256; state = value_percent2 }

-- `case value_percent`
unfoldable pub step_percent : Reader → ℕ → Reader
step_percent r c =
    let r' = add_val r b'%' in
    if is_digit c
    then first_digit r (c - b'0')
    else if low_hex c
    then first_digit r (c - b'a' + 10)
    else if high_hex c
    then first_digit r (c - b'A' + 10)
    else if c == b'='
    then record r' { state = equal }
    else if c == b'&'
    then close_value r'
    else if c == b'%'
    then r'
    else add_val r' c

-- The second digit: the byte is complete.
abbrev second_digit : Reader → ℕ → Reader
second_digit r d =
    let b = (r.h + d) % 256 in record r { h = b; val = r.val ++ b ∷ []; state = value }

-- `case value_percent2`
unfoldable pub step_percent2 : Reader → ℕ → Reader
step_percent2 r c =
    if is_digit c
    then second_digit r (c - b'0')
    else if low_hex c
    then second_digit r (c - b'a' + 10)
    else if high_hex c
    then second_digit r (c - b'A' + 10)
    else if c == b'='
    then record r { state = equal }
    else if c == b'&'
    then close_value r
    else if c == b'%'
    then record r { state = value_percent }
    else add_val r c

-- `case equal`
unfoldable pub step_equal : Reader → ℕ → Reader
step_equal r c =
    if c == b'&'
    then record r { map = insert r.key [] r.map; state = name; key = [] }
    else if c == b'%'
    then record r { state = value_percent }
    else record r { val = c ∷ []; state = value }

-- `case amp`
unfoldable pub step_amp : Reader → ℕ → Reader
step_amp r c =
    if c == b'&'
    then r
    else if c == b'='
    then record r { state = equal }
    else record r { key = c ∷ []; state = name }

-- `switch(state)`
unfoldable pub step_in : State → Reader → ℕ → Reader
unfolding step_name step_value step_percent step_percent2 step_equal step_amp
step_in name r c = step_name r c
step_in equal r c = step_equal r c
step_in amp r c = step_amp r c
step_in value r c = step_value r c
step_in value_percent r c = step_percent r c
step_in value_percent2 r c = step_percent2 r c

abbrev ends_text : ℕ → Bool
ends_text c = c == cr || c == lf || c == b' '

-- `for(p = from; p < to; p++)`
unfoldable pub read_loop : Reader → Bytes → Reader
read_loop r [] = r
read_loop r (c ∷ cs) =
    let rest = read_loop (step_in r.state r c) cs in if ends_text c then r else rest

-- `state == value || state == name || state == equal`
abbrev keeps_last : State → Bool
keeps_last value = true
keeps_last name = true
keeps_last equal = true
keeps_last _ = false

-- The statements behind the loop.
unfoldable pub finish : Reader → StrMap
finish r =
    if keeps_last r.state then if beq r.key [] then r.map else insert r.key r.val r.map else r.map

abbrev reader : StrMap → Reader
reader m = record { state = name; key = []; val = []; h = 0; map = m }

-- `text` is what stands from `from` up to `to`.
unfoldable pub read_http_values : StrMap → Bytes → StrMap
unfolding read_loop finish
read_http_values m text = finish (read_loop (reader m) text)
