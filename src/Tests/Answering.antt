-- ===== src/Tests/Answering.antt =====
-- Answers, at concrete inputs.
use evcp.Base.{
  ℕ, ◌≡◌, ◌↔◌, refl, none, some, codes, Bool, true, false, arith, [], ◌∷◌, ◌++◌, take, drop, beq,
}
use evcp.Base.Maps.{lookup, insert, at, bytes_lt}
use evcp.Connection.Headers.{c_str}
use evcp.Connection.Mime.{strncmp}
use evcp.Connection.Process.{
  System, Asked, Stat, MgrEnd, Handler, process_request, is_command, decimal, char_sum, int_text,
  get_etag, send_static, opened,
}
use evcp.Connection.Process.Etag.{
  Serves, asks_again, process_request-Serves, process_request-revalidated,
}
use evcp.Response.{Response, add_charset, compile_resp}
use evcp.Response.Status.{std_resp}
use evcp.Response.Layout.{head_lines, compile_resp-head}
use evcp.Response.Send.{Source, respond, send_file}
use evcp.Response.Send.Delivery.{Carries, Drained, respond_in_two, send_file-Carries}

abbrev answer : Response
answer = record {
  buf = codes "abcd";
  size = 6;
  status = 200;
  sent = 0;
  needrefill = false;
  h_sent = false;
  h_out = (codes "Content-Type", codes "text/html") ∷ [];
}

abbrev grants : ℕ → Bool
grants n = true

compile_resp-head_example :
    (compile_resp grants answer).buf
    ≡ codes "abcd" ++ (std_resp 200 ++ head_lines (add_charset answer.h_out))
compile_resp-head_example = compile_resp-head grants (λ n. refl) answer refl

respond_in_two_example :
    ((respond (1 ∷ 3 ∷ []) answer).2 ≡ codes "abcd")
    ↔ (take 3 (codes "abcd") ≡ drop 1 (codes "abcd"))
respond_in_two_example = respond_in_two answer 1 3 refl (omega arith, omega arith, omega arith) refl

abbrev on_disk : Source
on_disk = record { left = codes "xyz"; fsize = 3; fread = 0 }

send_file-Carries_example :
    let (how, f', r') = send_file (some 2 ∷ []) on_disk answer in
    Carries (codes "abcd") (codes "xyz") f' r' × Drained (some 2 ∷ []) how f' r'
send_file-Carries_example =
    send_file-Carries (codes "abcd") (codes "xyz") (some 2 ∷ []) on_disk answer (omega arith, tt)
      (refl, refl, omega arith)

abbrev a_file : Stat
a_file = record { is_dir = false; st_size = 10; st_mode = 33188; st_mtime = 1500000000; st_ino = 7 }

abbrev a_system : System
a_system = record {
  stat = λ path. some a_file;
  open_file = λ path. some 5;
  filetime = λ t. codes "Sun, 06 Nov 1994 08:49:37 GMT";
  now = 1500000001;
  mgr = λ q a. (MgrEnd.other, a);
}

abbrev a_request : Asked
a_request = record { uri = codes "/a.png"; exten = some (codes "png"); headers = [] }

process_request-Serves_example : Serves a_system a_request (process_request a_system a_request [])
unfolding process_request is_command strncmp send_static get_etag int_text decimal char_sum opened
    at insert lookup beq bytes_lt c_str
process_request-Serves_example = process_request-Serves a_system a_request [] refl

process_request-revalidated_example :
    let again =
      process_request a_system
        (asks_again a_request (at (codes "ETag") (process_request a_system a_request []).h_out))
        [] in
    (again.status ≡ 304) × (again.handler ≡ Handler.sp_finish_request) × (again.fsend ≡ none)
unfolding is_command strncmp
process_request-revalidated_example =
    process_request-revalidated a_system a_request [] a_file refl refl refl
