-- ===== src/Console/Dispatch/Liveness.antt =====
-- src/modules/mgr/mgr.cpp: `mgrProcess` with the command that it starts.
use evcp.Base.{List, Option, none, some, Bytes, ◌≡◌, ◌≢◌, refl, ◌⊎◌, inl, inr, arith}
use evcp.Session.{Session, Check, accepted, no_cookie, deletes_cookie, check}
use evcp.Console.State.{
  Services, Asked, Conn, Round, query, set_status, vars, compile, leave, finish_request,
  null_pointer,
}
use evcp.Console.Entry.{
  register_user, find_user, log_in, auth, Authentication, authorised, refused, throws, endless,
  login, logged_out, logout, desktop, keep_alive,
}
use evcp.Console.Dispatch.{
  Command, desktop_command, keep_alive_command, logout_command, group_list_command,
  group_add_command, site_list_command, site_add_command, url_list_command, url_add_command, dies,
  spins, command_round, command_of, process, started, unknown, merge, login_command,
}
use evcp.Base.Maps.{StrMap}
use evcp.Console.Dispatch.Access.{prepared}
use evcp.Console.Texts.Entry.{login_page, desktop_page}
use evcp.Console.Dispatch.Ends.{
  Ends, once-Ends, entry_page-Leaves, group_list-Ends, group_add-Ends, site_list-Ends,
  site_add-Ends, url_list-Ends, url_add-Ends,
}

-- A connection that a command can be called with.
abbrev IsReady : Conn → Type 0
IsReady c = (c.hndstate ≡ 0) × (c.sess ≢ none)

register_user-IsReady :
    (sv : Services) (q : Asked) (a : Bytes) (r : List Bytes) (c c' : Conn)
    → c.hndstate ≡ 0
    → register_user sv q a r c ≡ authorised c'
    → IsReady c'
unfolding register_user
register_user-IsReady sv q a r c c' z e = ground arith

find_user-IsReady :
    (sv : Services) (q : Asked) (b d a : Bytes) (c c' : Conn)
    → c.hndstate ≡ 0
    → find_user sv q b d a c ≡ authorised c'
    → IsReady c'
unfolding find_user query
find_user-IsReady sv q b d a c c' z e = grind (arith, register_user-IsReady)

log_in-IsReady :
    (sv : Services) (q : Asked) (c c' : Conn)
    → c.hndstate ≡ 0
    → log_in sv q c ≡ authorised c'
    → IsReady c'
unfolding log_in
log_in-IsReady sv q c c' z e = grind (arith, find_user-IsReady)

auth-IsReady :
    (sv : Services) (q : Asked) (c c' : Conn)
    → c.hndstate ≡ 0
    → auth sv q c ≡ authorised c'
    → IsReady c'
unfolding auth
auth-IsReady sv q c c' z e = checked (check sv.now q.sid q.headers c.sessions c.resp.h_out) e
  where
    checked :
        (r : Check)
        → elim r [
          | accepted s m ↦ authorised (record c { sessions = m; sess = some s })
          | no_cookie ↦ log_in sv q c
          | deletes_cookie h_out ↦ log_in sv q (record c { resp = record c.resp { h_out = h_out } })
        ]
          ≡ authorised c'
        → IsReady c'
    checked (accepted s m) e = ground arith
    checked no_cookie e = log_in-IsReady sv q c c' z e
    checked (deletes_cookie h_out) e =
        log_in-IsReady sv q (record c { resp = record c.resp { h_out = h_out } }) c' z e

-- A command that a connection is ready for.
abbrev IsCalled : Command → Conn → Type 0
IsCalled h c = (h ≡ login_command) ⊎ IsReady c

process-IsCalled :
    (sv : Services) (q : Asked) (c c' : Conn) (h : Command)
    → process sv q c ≡ started h c'
    → IsCalled h c'
unfolding process
process-IsCalled sv q c c' h e = chosen (auth sv q (prepared c)) refl e
  where
    M : StrMap
    M = merge (vars q.get_vars) (vars q.post_vars)

    chosen :
        (a : Authentication)
        → auth sv q (prepared c) ≡ a
        → elim a [
          | refused c' ↦ started login_command c'
          | throws ↦ dies
          | endless ↦ spins
          | authorised c' ↦ elim (command_of M) [
            | none ↦ unknown (set_status 501 c')
            | some h ↦ started h c'
          ]
        ]
          ≡ started h c'
        → IsCalled h c'
    chosen (refused c1) k e = ground arith
    chosen throws k e = ground arith
    chosen endless k e = ground arith
    chosen (authorised c1) k e =
        let ready = auth-IsReady sv q (prepared c) c1 refl k in
        let same : c1 ≡ c' = ground arith in inr (rw same at ready)

login-Ends : (sv : Services) (c : Conn) → Ends (login sv) c
unfolding login
login-Ends sv c = once-Ends (login sv) c (entry_page-Leaves sv _ login_page c)

desktop-Ends : (sv : Services) (c : Conn) → Ends (desktop sv) c
unfolding desktop
desktop-Ends sv c = once-Ends (desktop sv) c (entry_page-Leaves sv _ desktop_page c)

keep_alive-Ends : (sv : Services) (c : Conn) → Ends (keep_alive sv) c
unfolding keep_alive
keep_alive-Ends sv c = once-Ends (keep_alive sv) c (compile sv (set_status 200 c), refl)

logout-Ends : (c : Conn) → c.sess ≢ none → Ends logout c
unfolding logout
logout-Ends c there = once-Ends logout c (left c.sess there)
  where
    left :
        (o : Option Session)
        → o ≢ none
        → (c' : Conn) × (elim o as (λ _. Round) [
          | none ↦ null_pointer
          | some s ↦ leave finish_request (logged_out s c)
        ]
            ≡ leave finish_request c')
    left none there = absurd (there refl)
    left (some s) there = (_, refl)

command-Ends :
    (sv : Services) (q : Asked) (h : Command) (c : Conn)
    → IsCalled h c
    → Ends (command_round sv q h) c
unfolding command_round
command-Ends sv q login_command c i = login-Ends sv c
command-Ends sv q h c (inl e) = rw e (login-Ends sv c)
command-Ends sv q desktop_command c (inr (z, s)) = desktop-Ends sv c
command-Ends sv q keep_alive_command c (inr (z, s)) = keep_alive-Ends sv c
command-Ends sv q logout_command c (inr (z, s)) = logout-Ends c s
command-Ends sv q group_list_command c (inr (z, s)) = group_list-Ends sv q c z
command-Ends sv q group_add_command c (inr (z, s)) = group_add-Ends sv q c z
command-Ends sv q site_list_command c (inr (z, s)) = site_list-Ends sv q c z
command-Ends sv q site_add_command c (inr (z, s)) = site_add-Ends sv q c z
command-Ends sv q url_list_command c (inr (z, s)) = url_list-Ends sv q c z
command-Ends sv q url_add_command c (inr (z, s)) = url_add-Ends sv q c z

-- Whatever command a request starts, the handler's loop takes three rounds at most each time it is
-- called, it is called twice at most, and then it asks for `sp_finish_request`: no command hangs, and
-- none finds the connection without the session that it needs.
pub process-Ends :
    (sv : Services) (q : Asked) (c c' : Conn) (h : Command)
    → process sv q c ≡ started h c'
    → Ends (command_round sv q h) c'
process-Ends sv q c c' h e = command-Ends sv q h c' (process-IsCalled sv q c c' h e)
