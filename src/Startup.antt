-- ===== src/Startup.antt =====
-- src/core/smain.cpp, `main`, up to the loop of events.
pub mod Ports
use evcp.Base.{
  ℕ, zero, suc, ◌≡◌, ◌≢◌, refl, sym, ap, ◌∙◌, [], List, Option, none, some, Bool, true, false, not,
  Bytes, codes, ◌==◌, ◌&&◌, if◌then◌else◌, arith, Bool-cases, inl, inr,
}
use evcp.Base.Maps.{StrMap}
use evcp.Config.{defaults, load_lines, cs}
use evcp.Listeners.{
  Bind, Added, no_socket, no_memory, null_pointer, added, bind_pool_add, bind_one_std,
}

-- What the system gives: the lines of the file of the settings, if it can be opened; the lock on the file with the
-- process' number; the database; what `socket`, `realloc` and `gethostbyname` give for each of the two
-- sockets; what `bind` and `listen` give for them; and `atoi`.
pub record Boot : Type 0 where
  pub file : Option (List Bytes)
  pub locks : Bool
  pub opens_db : Bool
  pub sock : Option ℕ
  pub memory : Bool
  pub known : Bool
  pub ssl_sock : Option ℕ
  pub ssl_memory : Bool
  pub binds : List Bool
  pub listens : Bool
  pub ssl_binds : List Bool
  pub ssl_listens : Bool
  pub atoi : Bytes → ℕ

-- How `main` goes on: it ends with a code, it reads through NULL, or it comes to `conn_cycle` with what
-- `bind_one_std` has given for both sockets.
pub data Running : Type 0 where
  exits : ℕ → Running
  crashes : Running
  serves : Option ℕ → Option ℕ → Running

-- `ConfI`
unfoldable pub ci : Boot → Bytes → StrMap → ℕ
unfolding cs
ci b key conf = b.atoi (cs key conf)

-- `bStd`, `bSsl`: NULL, or the entry; `none` is a use of NULL in `bind_pool_add`.
unfoldable pub entry_of : Added → Option (Option Bind)
entry_of (added b) = some (some b)
entry_of no_socket = some none
entry_of no_memory = some none
entry_of null_pointer = none

unfoldable pub add_if : ℕ → Added → Option (Option Bind)
unfolding entry_of
add_if port a = if port == 0 then some none else entry_of a

-- `bind_one_std(b,true)`
unfoldable pub bind_entry : List Bool → Bool → Option Bind → Option (Option ℕ)
unfolding bind_one_std
bind_entry binds listens none = none
bind_entry binds listens (some e) = some (bind_one_std binds listens e)

abbrev pub both : Option (Option ℕ) → Option (Option ℕ) → Running
both none y = crashes
both (some x) none = crashes
both (some x) (some y) = serves x y

abbrev pub is_null : Option Bind → Bool
is_null none = true
is_null (some e) = false

-- From the test of the two entries on
unfoldable pub start_up : Boot → ℕ → ℕ → Option Bind → Option Bind → Running
unfolding bind_entry
start_up b port ssl_port std ssl =
    if not (port == 0) && (is_null std && (not (ssl_port == 0) && is_null ssl))
    then exits 2
    else both (bind_entry b.binds b.listens std) (bind_entry b.ssl_binds b.ssl_listens ssl)

abbrev pub with_both :
    Option (Option Bind) → Option (Option Bind) → (Option Bind → Option Bind → Running) → Running
with_both none y k = crashes
with_both (some x) none k = crashes
with_both (some x) (some y) k = k x y

-- `main`, with the settings that are read
unfoldable pub with_settings : Boot → StrMap → Running
unfolding ci add_if bind_pool_add start_up
with_settings b conf =
    let port = ci b (codes "PortNum") conf in
    let ssl_port = ci b (codes "PostNumSSL") conf in
    let (std, pool) = bind_pool_add b.sock b.memory b.known none port false [] in
    let pool' = if port == 0 then [] else pool in
    let (ssl, _) = bind_pool_add b.ssl_sock b.ssl_memory b.known none ssl_port true pool' in
    if b.locks
    then (if b.opens_db
        then with_both (add_if port std) (add_if ssl_port ssl) (start_up b port ssl_port)
        else exits 1)
    else exits 1

-- `main`
unfoldable pub main : Boot → Running
unfolding defaults load_lines with_settings
main b = elim b.file [ none ↦ exits 1 | some lines ↦ with_settings b (load_lines defaults lines) ]
