-- ===== src/Life/Blocks.antt =====
-- src/core/connection.cpp, `conn_init` and `conn_close`: the blocks that a connection owns.
use evcp.Base.{◌≡◌, ◌≢◌, refl, Option, none, some, arith}

-- A pointer of `sp_conn_s`, `sp_request_s` or `sp_responce`: NULL, to a block, or to one that has been freed.
pub data Pointer : Type 0 where
  null live freed : Pointer

-- `none` is a use of memory that has been freed, a use of NULL, or the loss of the last pointer to a block.
infixl 5 ◌>>=◌ ◌>>◌
abbrev pub ◌>>=◌ {ℓ κ} : {A : Type ℓ} {B : Type κ} → Option A → (A → Option B) → Option B
none >>= f = none
some a >>= f = f a

abbrev pub ◌>>◌ {ℓ} : {B : Type ℓ} → Option (Unit {0}) → Option B → Option B
m >> k = m >>= λ _. k

-- `free(p)`, and `if(p != NULL) free(p)`
unfoldable pub release : Pointer → Option Pointer
release null = some null
release live = some freed
release freed = none

-- `p->…`
unfoldable pub access : Pointer → Option (Unit {0})
access null = none
access live = some tt
access freed = none

-- `p = malloc(…)`, `p = new …`
unfoldable pub assign : Pointer → Option Pointer
assign null = some live
assign live = none
assign freed = some live

-- The blocks: `c` itself, those that it points to, those of `c->data` and those of `c->resp`
pub record Blocks : Type 0 where
  pub self : Pointer
  pub peer : Pointer
  pub ev : Pointer
  pub timeoutev : Pointer
  pub peeraddr : Pointer
  pub ssl : Pointer
  pub hndinfo : Pointer
  pub request : Pointer
  pub input : Pointer
  pub list : Pointer
  pub cookies : Pointer
  pub post_vars : Pointer
  pub get_vars : Pointer
  pub resp : Pointer
  pub output : Pointer
  pub fsendpath : Pointer
  pub h_out : Pointer

-- `conn_init`, when `malloc` gives what it is asked for; with or without TLS
abbrev pub first_blocks : Pointer → Blocks
first_blocks ssl = record {
  self = live;
  peer = live;
  ev = live;
  timeoutev = null;
  peeraddr = live;
  ssl = ssl;
  hndinfo = null;
  request = live;
  input = live;
  list = null;
  cookies = null;
  post_vars = null;
  get_vars = null;
  resp = live;
  output = live;
  fsendpath = null;
  h_out = live;
}

-- `conn_close`, from `free(c->peer)` on
unfoldable pub close_blocks : Blocks → Option Blocks
unfolding release access
close_blocks b = do
  access b.self
  peer ← release b.peer
  access b.ev
  timeoutev ← release b.timeoutev
  ev ← release b.ev
  peeraddr ← release b.peeraddr
  hndinfo ← release b.hndinfo
  access b.request
  input ← release b.input
  access b.resp
  output ← release b.output
  list ← release b.list
  cookies ← release b.cookies
  post_vars ← release b.post_vars
  get_vars ← release b.get_vars
  fsendpath ← release b.fsendpath
  h_out ← release b.h_out
  request ← release b.request
  resp ← release b.resp
  self ← release b.self
  some (record {
    self = self;
    peer = peer;
    ev = ev;
    timeoutev = timeoutev;
    peeraddr = peeraddr;
    ssl = b.ssl;
    hndinfo = hndinfo;
    request = request;
    input = input;
    list = list;
    cookies = cookies;
    post_vars = post_vars;
    get_vars = get_vars;
    resp = resp;
    output = output;
    fsendpath = fsendpath;
    h_out = h_out;
  })

-- What `free` leaves of a pointer that may be freed
abbrev pub after_free : Pointer → Pointer
after_free null = null
after_free live = freed
after_free freed = freed

-- The blocks that a connection always has are there, and no pointer is to a freed one.
pub record IsOpen (b : Blocks) : Type 0 where
  pub self : b.self ≡ live
  pub peer : b.peer ≡ live
  pub ev : b.ev ≡ live
  pub timeoutev : b.timeoutev ≡ null
  pub peeraddr : b.peeraddr ≡ live
  pub hndinfo : b.hndinfo ≡ null
  pub request : b.request ≡ live
  pub input : b.input ≡ live
  pub resp : b.resp ≡ live
  pub output : b.output ≡ live
  pub h_out : b.h_out ≡ live
  pub list : b.list ≢ freed
  pub cookies : b.cookies ≢ freed
  pub post_vars : b.post_vars ≢ freed
  pub get_vars : b.get_vars ≢ freed
  pub fsendpath : b.fsendpath ≢ freed

-- No block is left, but that of TLS.
pub record Released (b : Blocks) : Type 0 where
  pub self : b.self ≢ live
  pub peer : b.peer ≢ live
  pub ev : b.ev ≢ live
  pub timeoutev : b.timeoutev ≢ live
  pub peeraddr : b.peeraddr ≢ live
  pub hndinfo : b.hndinfo ≢ live
  pub request : b.request ≢ live
  pub input : b.input ≢ live
  pub resp : b.resp ≢ live
  pub output : b.output ≢ live
  pub h_out : b.h_out ≢ live
  pub list : b.list ≢ live
  pub cookies : b.cookies ≢ live
  pub post_vars : b.post_vars ≢ live
  pub get_vars : b.get_vars ≢ live
  pub fsendpath : b.fsendpath ≢ live

release_lem : (p : Pointer) → p ≢ freed → release p ≡ some (after_free p)
unfolding release
release_lem null h = refl
release_lem live h = refl
release_lem freed h = absurd (h refl)

after_free-ne-live : (p : Pointer) → after_free p ≢ live
after_free-ne-live null h = cc
after_free-ne-live live h = cc
after_free-ne-live freed h = cc

abbrev closed_blocks : Blocks → Blocks
closed_blocks b = record {
  self = freed;
  peer = freed;
  ev = freed;
  timeoutev = null;
  peeraddr = freed;
  ssl = b.ssl;
  hndinfo = null;
  request = freed;
  input = freed;
  list = after_free b.list;
  cookies = after_free b.cookies;
  post_vars = after_free b.post_vars;
  get_vars = after_free b.get_vars;
  resp = freed;
  output = freed;
  fsendpath = after_free b.fsendpath;
  h_out = freed;
}

-- `conn_close` on a connection that is open frees no block twice, and leaves none.
pub close_blocks-Released :
    (b : Blocks) → IsOpen b → (b' : Blocks) × (close_blocks b ≡ some b') × Released b'
unfolding close_blocks
close_blocks-Released b o = (
  closed_blocks b,
  ground (
    arith,
    release_lem b.list o.list,
    release_lem b.cookies o.cookies,
    release_lem b.post_vars o.post_vars,
    release_lem b.get_vars o.get_vars,
    release_lem b.fsendpath o.fsendpath,
  ),
  record {
    self = cc;
    peer = cc;
    ev = cc;
    timeoutev = cc;
    peeraddr = cc;
    hndinfo = cc;
    request = cc;
    input = cc;
    resp = cc;
    output = cc;
    h_out = cc;
    list = after_free-ne-live b.list;
    cookies = after_free-ne-live b.cookies;
    post_vars = after_free-ne-live b.post_vars;
    get_vars = after_free-ne-live b.get_vars;
    fsendpath = after_free-ne-live b.fsendpath;
  },
)
