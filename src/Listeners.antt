-- ===== src/Listeners.antt =====
-- src/core/connection.cpp: the pool of the sockets that the server listens on.
use evcp.Base.{
  ℕ, ◌+◌, ◌≡◌, refl, [], ◌∷◌, ◌++◌, List, Option, none, some, Bool, true, false, Bytes, codes, ltb,
  if◌then◌else◌, ◌&&◌, arith,
}

-- `sp_bind`, less the address structures; `ev` says whether the event is there.
pub record Bind : Type 0 where
  pub sock : ℕ
  pub host : Bytes
  pub port : ℕ
  pub secure : Bool
  pub usable : Bool
  pub binded : Bool
  pub ev : Bool

-- How `bind_pool_add` ends. It reads what `gethostbyname` gives without a test for NULL.
pub data Added : Type 0 where
  no_socket no_memory null_pointer : Added
  added : Bind → Added

-- `if(addr==NULL) addr = "0.0.0.0"`
abbrev pub or_any : Option Bytes → Bytes
or_any none = codes "0.0.0.0"
or_any (some a) = a

-- `bind_pool_add`, with what `socket`, `realloc` and `gethostbyname` give; the pool has its newest entry
-- in front.
unfoldable pub bind_pool_add :
    Option ℕ → Bool → Bool → Option Bytes → ℕ → Bool → List Bind → Added × List Bind
bind_pool_add none memory known addr port ssl pool = (no_socket, pool)
bind_pool_add (some sock) memory known addr port ssl pool =
    let b : Bind = record {
      sock = sock;
      host = or_any addr;
      port = port;
      secure = ssl;
      usable = true;
      binded = false;
      ev = true;
    } in
    if memory
    then if known then (added b, b ∷ pool) else (null_pointer, pool)
    else (no_memory, pool)

-- `bind_pool_unbind`, with the sockets that it closes
unfoldable pub bind_pool_unbind : Bind → List ℕ × Bind
bind_pool_unbind b =
    if b.binded && b.usable then (b.sock ∷ [], record b { binded = false }) else ([], b)

-- `bind_pool_delete`
unfoldable pub bind_pool_delete : Bind → Bind
bind_pool_delete b = record b { usable = false; ev = false }

-- `bind_pool_clear`: the sockets that it closes and what becomes of the entries, of which the pool has
-- none any more
unfoldable pub bind_pool_clear : List Bind → List ℕ × List Bind
unfolding bind_pool_unbind bind_pool_delete
bind_pool_clear [] = ([], [])
bind_pool_clear (b ∷ pool) =
    let (closed, gone) = bind_pool_clear pool in
    let (now, b') = if b.binded then bind_pool_unbind b else ([], b) in
    if b.usable then (now ++ closed, bind_pool_delete b' ∷ gone) else (closed, b ∷ gone)

-- `do … while (bret && i<10)`, over what each call of `bind` gives: whether the last call succeeded, and
-- the calls
unfoldable pub bind_loop : ℕ → List Bool → Bool × ℕ
bind_loop i [] = (false, i)
bind_loop i (good ∷ more) =
    let rest = bind_loop (i + 1) more in
    if good then (true, i + 1) else if ltb (i + 1) 10 then rest else (false, i + 1)

-- `bind_one_std`: the socket, or -1
unfoldable pub bind_one_std : List Bool → Bool → Bind → Option ℕ
unfolding bind_loop
bind_one_std binds listens b =
    if b.usable then if (bind_loop 0 binds).0 && listens then some b.sock else none else none

abbrev pub AreUnbound : List Bind → Type 0
AreUnbound [] = Unit
AreUnbound (b ∷ pool) = (b.binded ≡ false) × AreUnbound pool

-- No entry of the pool is ever marked as bound: one that is added is not, and `bind_one_std` marks none.
pub bind_pool_add-AreUnbound :
    (sock : Option ℕ) (memory known : Bool) (addr : Option Bytes) (port : ℕ) (ssl : Bool)
    (pool : List Bind)
    → AreUnbound pool
    → AreUnbound (bind_pool_add sock memory known addr port ssl pool).1
unfolding bind_pool_add
bind_pool_add-AreUnbound none memory known addr port ssl pool h = h
bind_pool_add-AreUnbound (some s) false known addr port ssl pool h = h
bind_pool_add-AreUnbound (some s) true false addr port ssl pool h = h
bind_pool_add-AreUnbound (some s) true true addr port ssl pool h = (refl, h)

-- So `bind_pool_clear` closes no socket of such a pool.
pub bind_pool_clear-none : (pool : List Bind) → AreUnbound pool → (bind_pool_clear pool).0 ≡ []
unfolding bind_pool_clear
bind_pool_clear-none [] h = refl
bind_pool_clear-none (b ∷ pool) (e, h) = ground (arith, bind_pool_clear-none pool h)
