-- ===== src/Tests/Sessions.antt =====
-- Sessions and settings, at concrete inputs.
use evcp.Base.{
  ◌≡◌, refl, none, some, codes, true, arith, [], ◌∷◌, beq, length, ◌%◌, ◌==◌, if◌then◌else◌,
}
use evcp.Config.{cs, load_file, defaults}
use evcp.Config.Lines.{Setting, file_text, setting_of, cs-load_file}
use evcp.Base.Maps.{at}
use evcp.Session.{
  Sessions, find, kill, touch, fresh_id, registered, register, Registered, decode_sid, sid_loop,
  nibble, sid_of, check, accepted, deletes_cookie, cookie_del,
}
use evcp.Session.Ids.{decode_sid-sid_of}
use evcp.Session.Lifetime.{check-register, cookie_text, check-kill}

decode_sid-sid_of_example :
    decode_sid (sid_of 43981) ≡ (if length (sid_of 43981) % 2 == 0 then some 43981 else none)
decode_sid-sid_of_example = decode_sid-sid_of 43981 (omega arith)

abbrev login : Registered
login = registered 43981 100 7 0 (codes "root") (codes "127.0.0.1") Sessions.empty []

check-register_example :
    (find 43981 Sessions.empty ≡ none)
    × ((login.sess.user_id ≡ 7) × (login.sess.user_login ≡ codes "root"))
    × (at (codes "Set-Cookie") login.h_out ≡ cookie_text 43981)
    × (find 5 login.sessions ≡ (if 43981 == 5 then some login.sess else find 5 Sessions.empty))
    × (check 200 (sid_of 43981) [] login.sessions [] ≡ (
        if length (sid_of 43981) % 2 == 0
        then accepted (record login.sess { lastuse = 200 }) (touch 43981 200 login.sessions)
        else deletes_cookie (cookie_del (codes "SPSID") [] [])))
unfolding register fresh_id find registered
check-register_example =
    check-register (43981 ∷ []) 100 200 7 0 (codes "root") (codes "127.0.0.1") Sessions.empty [] []
      login 5 refl (omega arith)

check-kill_example :
    check 200 (codes "abcd") [] (kill 43981 login.sessions) []
    ≡ deletes_cookie (cookie_del (codes "SPSID") [] [])
unfolding decode_sid sid_loop nibble beq
check-kill_example = check-kill 200 43981 (codes "abcd") [] [] login.sessions refl refl

abbrev port : Setting
port = record { first = b'P'; others = codes "ort"; val = codes "8080"; quoted = true }

cs-load_file_example :
    cs (codes "Port") (load_file defaults (file_text (port ∷ [])))
    ≡ setting_of (codes "Port") (port ∷ []) (cs (codes "Port") defaults)
cs-load_file_example =
    cs-load_file defaults (port ∷ []) (codes "Port") ((ground arith, omega arith), tt)
