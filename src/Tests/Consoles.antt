-- ===== src/Tests/Consoles.antt =====
-- The console, at concrete inputs.
use evcp.Base.{
  ◌≡◌, ◌++◌, ◌-◌, ◌+◌, refl, none, some, codes, true, false, arith, [], ◌∷◌, List, Option, Bytes,
  map,
}
use evcp.Base.Maps.{StrMap, at}
use evcp.Database.{Row, statement}
use evcp.Database.Query.{complete}
use evcp.Session.{Session, entry, empty, touch, decode_sid, sid_loop, nibble}
use evcp.Console.State.{Services, Asked, Conn, doc_start}
use evcp.Console.Texts.Urls.{urls_start, urls_head, urls_tail}
use evcp.Console.Urls.{urls_page, url_text_of}
use evcp.Console.Urls.Rows.{row_texts, urls_page-rows}
use evcp.Console.Ips.{Ip, insert_range}
use evcp.Console.Ips.Range.{value, count_up, Inserts, insert_range-values}
use evcp.Console.Dispatch.{process, started, keep_alive_command, command_round}
use evcp.Console.Dispatch.Access.{prepared}
use evcp.Console.Dispatch.Ends.{Ends}
use evcp.Console.Dispatch.Liveness.{process-Ends}

abbrev page_names : Row
page_names = codes "pageId" ∷ codes "pageUrl" ∷ []

abbrev page_rows : List (List (Option Bytes))
page_rows = (some (codes "1") ∷ some (codes "/") ∷ []) ∷ (some (codes "2") ∷ none ∷ []) ∷ []

abbrev services : Services
services = record {
  addslashes = λ s. s;
  explode = λ s c. s ∷ [];
  base64_decode = λ s. s;
  atoi = λ s. 0;
  sqlite = λ before text. statement page_names page_rows 0 ∷ [];
  insert_id = λ before. 7;
  transform = λ template text. some text;
  long_text = λ n. codes "7";
  realloc = λ n. true;
  allocator = record { realloc = λ n. true; malloc = λ n. true };
  now = 100;
  ids = 5 ∷ [];
}

abbrev ann : Session
ann = record {
  id = 10;
  ip = codes "10.0.0.1";
  started = 50;
  lastuse = 60;
  user_id = 1;
  user_vn_id = 1;
  user_login = codes "ann";
}

abbrev conn : Conn
conn = record {
  hndstate = 0;
  resp = record {
    buf = [];
    size = 10240;
    status = 200;
    sent = 0;
    needrefill = false;
    h_sent = false;
    h_out = [];
  };
  queries = [];
  sessions = entry ann empty;
  sess = none;
}

-- A request with the cookie of the session
abbrev asks : StrMap → Option StrMap → Asked
asks get post = record {
  headers = [];
  sid = codes "0a";
  get_vars = some get;
  post_vars = post;
  peer = codes "10.0.0.1";
}

abbrev keepalive : Asked
keepalive = asks ((codes "act", codes "keepalive") ∷ []) none

-- The connection as `mgrAuth` leaves it
abbrev known : Conn
known = record (prepared conn) {
  sessions = touch 10 100 conn.sessions;
  sess = some (record ann { lastuse = 100 });
}

keepalive_starts : process services keepalive conn ≡ started keep_alive_command known
unfolding process touch decode_sid sid_loop nibble at
keepalive_starts = refl

process-Ends_example : Ends (command_round services keepalive keep_alive_command) known
process-Ends_example =
    process-Ends services keepalive conn known keep_alive_command keepalive_starts

abbrev first_ip : Ip
first_ip = record { a = 10; b = 0; c = 0; d = 254 }

abbrev last_ip : Ip
last_ip = record { a = 10; b = 0; c = 1; d = 1 }

insert_range-values_example :
    (ips : List Ip) × (Inserts services (insert_range 4 services first_ip last_ip conn) conn ips
      × (map value ips ≡ count_up (value first_ip + 1) (value last_ip - value first_ip)))
insert_range-values_example =
    insert_range-values 4 services first_ip last_ip conn (omega arith) (omega arith) (omega arith)
      (omega arith)

urls_page-rows_example :
    (urls_page services [] conn).0
    ≡ ((doc_start ++ urls_start ++ at (codes "elid") [] ++ urls_head)
        ++ row_texts url_text_of (complete page_rows))
      ++ urls_tail
urls_page-rows_example =
    urls_page-rows services page_names page_rows conn (λ n. refl) (λ n. refl) (refl, (refl, tt))
      refl []

abbrev deletion : Asked
deletion = asks ((codes "act", codes "sitegroupdel") ∷ (codes "elid", codes "3") ∷ []) none

abbrev site_form : StrMap
site_form =
    (codes "sok", codes "ok")
    ∷ (codes "gid", codes "1")
    ∷ (codes "newdomain", codes "a.kz")
    ∷ (codes "newurl", codes "/")
    ∷ []
