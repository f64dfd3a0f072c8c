-- ===== src/Config.antt =====
-- src/core/config.cpp: the program's settings, from a file of lines `KEY value`.
pub mod Lines
use evcp.Base.{
  ◌-◌, length, ℕ, ◌+◌, [], ◌∷◌, ◌++◌, List, ◌||◌, Bool, true, false, not, Bytes, ltb, leb, ◌==◌,
  if◌then◌else◌, beq, codes,
}
use evcp.Base.Maps.{StrMap, insert, at}

-- The states of the loop over a line's bytes
pub data State : Type 0 where
  look_for_directive reading_directive look_for_value reading_value : State

-- The local variables `state`, `k`, `v` and `inq`
pub record Reader : Type 0 where
  pub state : State
  pub k : Bytes
  pub v : Bytes
  pub inq : Bool

-- After a byte: the next one, or the end of the line, which `buf[i+1]=0` makes
pub data Next : Type 0 where
  on ends : Reader → Next

-- `c > 32` on a signed `char`
abbrev pub is_graphic : ℕ → Bool
is_graphic c = if ltb 32 c then ltb c 128 else false

-- `c < 33`
abbrev pub is_blank : ℕ → Bool
is_blank c = not (is_graphic c)

-- `case sLFD`
unfoldable pub step_directive : Reader → ℕ → Next
step_directive r c =
    if c == b'#'
    then ends r
    else if is_graphic c
    then on (record r { k = r.k ++ c ∷ []; state = reading_directive })
    else on r

-- `case sRD`
unfoldable pub step_reading : Reader → ℕ → Next
step_reading r c =
    if c == b'#'
    then ends r
    else if is_graphic c
    then on (record r { k = r.k ++ c ∷ [] })
    else on (record r { state = look_for_value })

-- `case sRV`
unfoldable pub step_value : Reader → ℕ → Next
step_value r c =
    if c == b'#'
    then ends r
    else if is_graphic c
    then (if r.inq
        then (if c == b'"'
            then ends (record r { inq = false })
            else on (record r { v = r.v ++ c ∷ [] }))
        else if c == b'"'
        then on (record r { inq = true })
        else on (record r { v = r.v ++ c ∷ [] }))
    else ends r

-- `case sLFV`, which falls through to `sRV` at the first byte of a value
unfoldable pub step_look : Reader → ℕ → Next
unfolding step_value
step_look r c =
    if c == b'#'
    then ends r
    else if is_blank c
    then on r
    else step_value (record r { state = reading_value }) c

-- `switch(state)`
unfoldable pub step_in : State → Reader → ℕ → Next
unfolding step_directive step_reading step_look step_value
step_in look_for_directive r c = step_directive r c
step_in reading_directive r c = step_reading r c
step_in look_for_value r c = step_look r c
step_in reading_value r c = step_value r c

-- `for(i=0;buf[i];i++)`
unfoldable pub line_loop : Reader → Bytes → Reader
unfolding step_in
line_loop r [] = r
line_loop r (c ∷ cs) =
    if c == 0 then r else elim (step_in r.state r c) [ on r' ↦ line_loop r' cs | ends r' ↦ r' ]

abbrev pub line_reader : Reader
line_reader = record { state = look_for_directive; k = []; v = []; inq = false }

-- A line, and `data[k] = v` where it has a key
unfoldable pub load_line : StrMap → Bytes → StrMap
unfolding line_loop beq insert
load_line data_ line =
    let r = line_loop line_reader line in if beq r.k [] then data_ else insert r.k r.v data_

-- `while(fgets(buf,10239,f))`, for the pieces that `fgets` gives
unfoldable pub load_lines : StrMap → List Bytes → StrMap
unfolding load_line
load_lines data_ [] = data_
load_lines data_ (line ∷ lines) = load_lines (load_line data_ line) lines

-- What `fgets(buf,10239,f)` gives, call for call, with the room that is left and the piece so far: a line up
-- to its line feed, or 10238 bytes
unfoldable pub fgets_pieces : ℕ → Bytes → Bytes → List Bytes
fgets_pieces room piece [] = if length piece == 0 then [] else piece ∷ []
fgets_pieces room piece (c ∷ cs) =
    let piece' = piece ++ c ∷ [] in
    let complete = c == b'\n' || room == 1 in
    let rest =
      fgets_pieces (if complete then 10238 else room - 1) (if complete then [] else piece') cs in
    if complete then piece' ∷ rest else rest

-- `LoadFromFile`, for a file that is opened and holds these bytes
unfoldable pub load_file : StrMap → Bytes → StrMap
unfolding fgets_pieces load_lines
load_file data_ text = load_lines data_ (fgets_pieces 10238 [] text)

-- `data[key]=value`, one after the other
unfoldable pub set_all : List (Bytes × Bytes) → StrMap → StrMap
unfolding insert
set_all [] m = m
set_all ((k, v) ∷ rows) m = set_all rows (insert k v m)

-- The assignments of the constructor
unfoldable pub default_rows : List (Bytes × Bytes)
default_rows =
    (codes "PATH_PIDFILE", codes "/var/run/spanel.pid")
    ∷ (codes "PATH_OWNROOT", codes "/var/spanel/")
    ∷ (codes "PATH_USERSKEL", codes "/var/spanel/skel")
    ∷ (codes "PATH_NAMED_STORE", codes "/var/named/chroot/var/named/")
    ∷ (codes "PATH_NAMED_SUFFIX", codes "spanel/")
    ∷ (codes "PATH_VHOST_CONF", codes "/var/spanel/vhost/")
    ∷ (codes "PATH_NAMED_PIDFILE", codes "/var/named/chroot/var/run/named/named.pid")
    ∷ (codes "DNS_1", codes "ns1")
    ∷ (codes "DNS_2", codes "ns2")
    ∷ (codes "CGATE_PORT", codes "106")
    ∷ (codes "SOCK_RETRY", codes "5")
    ∷ (codes "CGATE_HOST", codes "localhost.localdomain")
    ∷ (codes "SQL_USER", codes "root")
    ∷ (codes "SQL_DB", codes "skillpanel")
    ∷ (codes "SQL_HOST", codes "localhost")
    ∷ (codes "SQL_PASS", codes "")
    ∷ (codes "UID_MIN", codes "500")
    ∷ (codes "MYSQL_DATA", codes "/var/lib/mysql/")
    ∷ (codes "MAIL_DATA_PRE", codes "/var/CommuniGate/Domains/")
    ∷ (codes "MAIL_DATA_SUF", codes ".macnt")
    ∷ (codes "DEFAULT_LOGSNUM", codes "10")
    ∷ (codes "PortNum", codes "400")
    ∷ (codes "CGATE_USER", codes "skillpanel")
    ∷ (codes "CGATE_PASSWD", codes "")
    ∷ (codes "DNS_1_IP", codes "127.0.0.1")
    ∷ (codes "DNS_2_IP", codes "127.0.0.1")
    ∷ (codes "USED_FS", codes "/")
    ∷ []

-- `ConfigClass::ConfigClass`
unfoldable pub defaults : StrMap
unfolding set_all default_rows
defaults = set_all default_rows []

-- `ConfigClass::cs`
unfoldable pub cs : Bytes → StrMap → Bytes
unfolding at
cs key data_ = at key data_
