-- ===== src/Life/Asks.antt =====
-- src/core/connection.cpp, `sp_process_request`: what it makes of a request for a file that is sent.
use evcp.Base.{ℕ, suc, ◌≡◌, ◌<◌, refl, ◌∙◌, [], some, false, beq, arith, codes}
use evcp.Base.Maps.{at}
use evcp.Connection.Process.{
  System, Asked, Answer, Stat, send_path, is_command, process_request, send_static, opened,
  file_headers, common_headers, get_etag, sp_responce_senfile,
}
use evcp.Connection.Process.Etag.{process_request-file, etag-file_headers}

-- The answer to a file that is sent
abbrev pub file_answer : System → Asked → Stat → ℕ → Answer
file_answer sys q st fd = record {
  handler = sp_responce_senfile;
  status = 200;
  h_out = file_headers sys q (send_path q.uri) st (common_headers sys []);
  fsend = some fd;
  fsize = st.st_size;
  fread = 0;
}

-- A request for a file that is there, has bytes, can be opened, and is not the one that the client has
pub record Asks (sys : System) (q : Asked) (st : Stat) (fd : ℕ) : Type 0 where
  pub no_command : is_command q.uri ≡ false
  pub exists : sys.stat (send_path q.uri) ≡ some st
  pub no_dir : st.is_dir ≡ false
  pub not_known : beq (at (codes "If-None-Match") q.headers) (get_etag (send_path q.uri) st) ≡ false
  pub opens : sys.open_file (send_path q.uri) ≡ some (suc fd)
  pub not_empty : 0 < st.st_size

opened-sends :
    (st : Stat) (fd : ℕ) (a : Answer)
    → 0 < st.st_size
    → opened (some (suc fd)) st a ≡ record a {
      fsize = st.st_size;
      fread = 0;
      fsend = some (suc fd);
      handler = sp_responce_senfile;
    }
unfolding opened
opened-sends st fd a h = ground arith

send_static-sends :
    (sys : System) (q : Asked) (st : Stat) (fd : ℕ) (a : Answer)
    → Asks sys q st fd
    → send_static sys q (send_path q.uri) st a
      ≡ opened
          (some (suc fd))
          st
          (record a { h_out = file_headers sys q (send_path q.uri) st a.h_out })
unfolding send_static
send_static-sends sys q st fd a h =
    rw (send_static, etag-file_headers sys q (send_path q.uri) st a.h_out, h.not_known, h.opens)
      refl

pub process_request-sends :
    (sys : System) (q : Asked) (st : Stat) (fd : ℕ)
    → Asks sys q st fd
    → process_request sys q [] ≡ file_answer sys q st (suc fd)
process_request-sends sys q st fd h =
    process_request-file sys q [] st h.no_command h.exists h.no_dir
    ∙ send_static-sends sys q st fd _ h
    ∙ opened-sends st fd _ h.not_empty
