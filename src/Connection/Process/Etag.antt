-- ===== src/Connection/Process/Etag.antt =====
-- A file that is asked for: when it is sent, and what happens when it is asked for again.
use evcp.Base.{
  ℕ, zero, suc, ◌≡◌, ◌≢◌, refl, ◌∙◌, ap, Option, none, some, false, Bytes, ◌==◌, if◌then◌else◌, beq,
  beq_refl, codes, Bool-cases, Option-cases, inl, inr, arith,
}
use evcp.Base.Maps.{StrMap, insert, at, at-insert}
use evcp.Connection.Mime.{getmime}
use evcp.Connection.Process.{
  Answer, Asked, System, Stat, sp_finish_request, sp_responce_senfile, get_etag, int_text, returned,
  send_path, is_command, run_command, opened, file_headers, send_static, process_request,
  common_headers, MgrEnd, handled, auth_failed, other,
}

pub etag-file_headers :
    (sys : System) (q : Asked) (path : Bytes) (st : Stat) (m : StrMap)
    → at (codes "ETag") (file_headers sys q path st m) ≡ get_etag path st
unfolding beq
etag-file_headers sys q path st m =
    at-insert (codes "Last-Modified") (codes "ETag") (sys.filetime st.st_mode)
      (insert (codes "ETag") (get_etag path st) before)
    ∙ at-insert (codes "ETag") (codes "ETag") (get_etag path st) before
  where
    before : StrMap
    before =
        insert (codes "Content-Length") (int_text st.st_size)
          (insert (codes "Content-Type") (getmime q.exten) m)

h_out-opened : (o : Option ℕ) (st : Stat) (a : Answer) → (opened o st a).h_out ≡ a.h_out
unfolding opened
h_out-opened none st a = refl
h_out-opened (some zero) st a = refl
h_out-opened (some (suc fd)) st a = refl

-- Sent or not, the file's tag is among the headers.
etag-send_static :
    (sys : System) (q : Asked) (path : Bytes) (st : Stat) (a : Answer)
    → at (codes "ETag") (send_static sys q path st a).h_out ≡ get_etag path st
unfolding send_static
etag-send_static sys q path st a =
    elim (Bool-cases (beq (at (codes "If-None-Match") q.headers) (at (codes "ETag") h))) [
      | inl y ↦ rw (send_static, y) (etag-file_headers sys q path st a.h_out)
      | inr n ↦
          rw (send_static, n)
            (ap (at (codes "ETag")) (h_out-opened (sys.open_file path) st (record a { h_out = h }))
              ∙ etag-file_headers sys q path st a.h_out)
    ]
  where
    h : StrMap
    h = file_headers sys q path st a.h_out

pub process_request-file :
    (sys : System) (q : Asked) (h_out : StrMap) (st : Stat)
    → is_command q.uri ≡ false
    → sys.stat (send_path q.uri) ≡ some st
    → st.is_dir ≡ false
    → process_request sys q h_out
      ≡ send_static sys q (send_path q.uri) st (record {
        handler = sp_finish_request;
        status = 200;
        h_out = common_headers sys h_out;
        fsend = none;
        fsize = 0;
        fread = 0;
      })
unfolding process_request
process_request-file sys q h_out st c s d = rw (process_request, c, s, d) refl

-- Headers with the tag of an answer, as a client sends them that asks again.
abbrev pub asks_again : Asked → Bytes → Asked
asks_again q tag = record q { headers = insert (codes "If-None-Match") tag q.headers }

send_static-tagged :
    (sys : System) (q : Asked) (path : Bytes) (st : Stat) (a : Answer)
    → at (codes "If-None-Match") q.headers ≡ get_etag path st
    → send_static sys q path st a ≡ record a {
      h_out = file_headers sys q path st a.h_out;
      handler = sp_finish_request;
      status = 304;
    }
unfolding send_static
send_static-tagged sys q path st a e =
    rw (send_static, e, etag-file_headers sys q path st a.h_out, beq_refl (get_etag path st)) refl

-- A client that asks for a file, with no command of the console and no directory, and sends back the
-- tag of the answer while the file's `stat` stays as it was, is told that the file has not changed (status 304): the head alone is sent, no file is opened.
pub process_request-revalidated :
    (sys : System) (q : Asked) (h_out : StrMap) (st : Stat)
    → is_command q.uri ≡ false
    → sys.stat (send_path q.uri) ≡ some st
    → st.is_dir ≡ false
    → let again =
        process_request sys
          (asks_again q (at (codes "ETag") (process_request sys q h_out).h_out))
          h_out in
      (again.status ≡ 304) × (again.handler ≡ sp_finish_request) × (again.fsend ≡ none)
process_request-revalidated sys q h_out st c s d =
    rw
      (
        process_request-file sys q h_out st c s d,
        etag-send_static sys q (send_path q.uri) st first,
        process_request-file sys (asks_again q tag) h_out st c s d,
        send_static-tagged sys (asks_again q tag) (send_path q.uri) st first (
            at-insert (codes "If-None-Match") (codes "If-None-Match") tag q.headers
            ∙ rw (beq_refl (codes "If-None-Match")) refl),
      )
      (refl, refl, refl)
  where
    tag : Bytes
    tag = get_etag (send_path q.uri) st

    first : Answer
    first = record {
      handler = sp_finish_request;
      status = 200;
      h_out = common_headers sys h_out;
      fsend = none;
      fsize = 0;
      fread = 0;
    }

run_command_finishes :
    (sys : System) (q : Asked) (a : Answer) → (run_command sys q a).handler ≢ sp_responce_senfile
unfolding run_command
run_command_finishes sys q a e = go (sys.mgr q a).0 (sys.mgr q a).1 e
  where
    go :
        (end : MgrEnd) (a' : Answer)
        → (elim end as (λ _. Answer) [
          | handled ↦ record a' { handler = returned }
          | auth_failed ↦ record a' { handler = sp_finish_request }
          | other ↦ record a' { handler = sp_finish_request; status = 501 }
        ]).handler
          ≢ sp_responce_senfile
    go handled a' e = cc
    go auth_failed a' e = cc
    go other a' e = cc

-- What holds when a file is sent.
pub record Serves (sys : System) (q : Asked) (a : Answer) : Type 0 where
  pub st : Stat
  pub fd : ℕ
  pub no_command : is_command q.uri ≡ false
  pub exists : sys.stat (send_path q.uri) ≡ some st
  pub no_dir : st.is_dir ≡ false
  pub opened : sys.open_file (send_path q.uri) ≡ some (suc fd)
  pub not_empty : st.st_size ≢ 0
  pub status : a.status ≡ 200
  pub fsend : a.fsend ≡ some (suc fd)
  pub fsize : a.fsize ≡ st.st_size
  pub fread : a.fread ≡ 0

first_answer : System → StrMap → Answer
first_answer sys h_out = record {
  handler = sp_finish_request;
  status = 200;
  h_out = common_headers sys h_out;
  fsend = none;
  fsize = 0;
  fread = 0;
}

-- What `opened` has done when a file is to be sent.
Opens : Option ℕ → Stat → Answer → Answer → Type 0
Opens o st a b =
    (fd : ℕ) × (o ≡ some (suc fd))
    × (st.st_size ≢ 0)
    × (b.status ≡ a.status)
    × (b.fsend ≡ some (suc fd))
    × (b.fsize ≡ st.st_size)
    × (b.fread ≡ 0)

opened-Opens :
    (o : Option ℕ) (st : Stat) (a : Answer)
    → (opened o st a).handler ≡ sp_responce_senfile
    → Opens o st a (opened o st a)
unfolding opened Opens
opened-Opens none st a h = absurd (let k : sp_finish_request ≡ sp_responce_senfile = h in cc)
opened-Opens (some zero) st a h = absurd (let k : sp_finish_request ≡ sp_responce_senfile = h in cc)
opened-Opens (some (suc fd)) st a h = (fd, refl, size st.st_size h, refl, refl, refl, refl)
  where
    size :
        (n : ℕ)
        → (if n == 0 then sp_finish_request else sp_responce_senfile) ≡ sp_responce_senfile
        → n ≢ 0
    size zero h = absurd (let k : sp_finish_request ≡ sp_responce_senfile = h in cc)
    size (suc n) h = ground arith

send_static-Opens :
    (sys : System) (q : Asked) (path : Bytes) (st : Stat) (a : Answer)
    → (send_static sys q path st a).handler ≡ sp_responce_senfile
    → Opens (sys.open_file path) st a (send_static sys q path st a)
unfolding send_static Opens
send_static-Opens sys q path st a e =
    elim (Bool-cases (beq (at (codes "If-None-Match") q.headers) (at (codes "ETag") h))) [
      | inl y ↦
          absurd
            (let k : sp_finish_request ≡ sp_responce_senfile = (rw (send_static, y) at e) in cc)
      | inr n ↦
          rw (send_static, n)
            (opened-Opens (sys.open_file path) st (record a { h_out = h })
              (rw (send_static, n) at e))
    ]
  where
    h : StrMap
    h = file_headers sys q path st a.h_out

-- The function hands over to `sp_responce_senfile` only for a request that is no command of the
-- console, with a file that exists, is no directory, is not empty and has been opened; the status is
-- 200 then, and the file's size and descriptor are those of that file.
pub process_request-Serves :
    (sys : System) (q : Asked) (h_out : StrMap)
    → (process_request sys q h_out).handler ≡ sp_responce_senfile
    → Serves sys q (process_request sys q h_out)
unfolding process_request Opens first_answer
process_request-Serves sys q h_out e = elim (Bool-cases (is_command q.uri)) [
  | inl y ↦ absurd (
      run_command_finishes sys q (first_answer sys h_out)
        (unfold first_answer in rw (process_request, y) at e))
  | inr n ↦ elim (Option-cases (sys.stat (send_path q.uri))) [
    | inl m ↦
        absurd (
          let k : sp_finish_request ≡ sp_responce_senfile = (rw (process_request, n, m) at e) in cc)
    | inr (st, m) ↦ elim (Bool-cases st.is_dir) [
      | inl d ↦ absurd (
          let k : sp_finish_request ≡ sp_responce_senfile = (rw (process_request, n, m, d) at e) in
          cc)
      | inr d ↦
          let p = process_request-file sys q h_out st n m d in
          let (fd, o, size, status, fsend, fsize, fread) =
            send_static-Opens sys q (send_path q.uri) st (first_answer sys h_out)
              (unfold first_answer in rw p at e) in
          rw p (record {
            st = st;
            fd = fd;
            no_command = n;
            exists = m;
            no_dir = d;
            opened = o;
            not_empty = size;
            status = status;
            fsend = fsend;
            fsize = fsize;
            fread = fread;
          })
    ]
  ]
]
