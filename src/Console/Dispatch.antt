-- ===== src/Console/Dispatch.antt =====
-- src/modules/mgr/mgr.cpp: `mgrProcess`, which chooses the command that answers a request.
pub mod Access
pub mod Changes
pub mod Ends
pub mod Liveness
use evcp.Base.{ℕ, [], ◌∷◌, List, Option, none, some, Bytes, codes, beq, if◌then◌else◌}
use evcp.Base.Maps.{StrMap, insert, at}
use evcp.Console.State.{Services, Asked, Conn, Round, vars, set_state, set_status, set_header, says}
use evcp.Console.Entry.{
  desktop, login, logout, keep_alive, auth, authorised, refused, throws, endless,
}
use evcp.Console.Groups.{group_list, group_add}
use evcp.Console.Sites.{site_list, site_add}
use evcp.Console.Urls.{url_list, url_add}

-- The handlers that `mgrProcess` chooses from
pub data Command : Type 0 where
  login_command desktop_command logout_command keep_alive_command : Command
  group_list_command group_add_command site_list_command site_add_command url_list_command
        url_add_command :
      Command

-- One run of a handler is one or more rounds of its `for(;;)`.
unfoldable pub command_round : Services → Asked → Command → Conn → Round
unfolding desktop login logout keep_alive group_list group_add site_list site_add url_list url_add
command_round sv q login_command c = login sv c
command_round sv q desktop_command c = desktop sv c
command_round sv q logout_command c = logout c
command_round sv q keep_alive_command c = keep_alive sv c
command_round sv q group_list_command c = group_list sv q c
command_round sv q group_add_command c = group_add sv q c
command_round sv q site_list_command c = site_list sv q c
command_round sv q site_add_command c = site_add sv q c
command_round sv q url_list_command c = url_list sv q c
command_round sv q url_add_command c = url_add sv q c

-- `for(Mi = P->begin();…) M[Mi->first] = Mi->second;`
abbrev pub merge : StrMap → StrMap → StrMap
merge M [] = M
merge M ((k, v) ∷ P) = merge (insert k v M) P

-- The chain of tests of `M["act"]`
unfoldable pub command_of : StrMap → Option Command
command_of M =
    let is : Bytes → _ = says M (codes "act") in
    if is (codes "keepalive")
    then some keep_alive_command
    else if is (codes "sitegroups")
    then some group_list_command
    else if is (codes "sitegroupadd")
    then some group_add_command
    else if is (codes "sitegroupdel")
    then some group_list_command
    else if is (codes "sites")
    then some site_list_command
    else if is (codes "siteadd")
    then some site_add_command
    else if is (codes "sitedel")
    then some site_list_command
    else if is (codes "siteurls")
    then some url_list_command
    else if is (codes "siteurladd")
    then some url_add_command
    else if is (codes "siteurldel")
    then some url_list_command
    else if is (codes "logout")
    then some logout_command
    else if is []
    then some desktop_command
    else none

-- How `mgrProcess` ends: with a handler as the next event (1), without one (-1), or not at all.
pub data Processed : Type 0 where
  started : Command → Conn → Processed
  unknown : Conn → Processed
  dies spins : Processed

-- `mgrProcess`
unfoldable pub process : Services → Asked → Conn → Processed
unfolding auth command_of insert
process sv q c =
    let M = merge (vars q.get_vars) (vars q.post_vars) in
    let ready =
      set_header (codes "Content-Type") (codes "text/html; charset=UTF-8") (set_state 0 c) in
    elim (auth sv q ready) [
      | refused c' ↦ started login_command c'
      | throws ↦ dies
      | endless ↦ spins
      | authorised c' ↦ elim (command_of M) [
        | none ↦ unknown (set_status 501 c')
        | some h ↦ started h c'
      ]
    ]
