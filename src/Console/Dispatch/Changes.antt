-- ===== src/Console/Dispatch/Changes.antt =====
-- src/modules/mgr: what the commands that change the database ask it.
use evcp.Base.{
  ℕ, [], ◌∷◌, ◌++◌, List, some, true, Bytes, ◌≡◌, refl, ◌∙◌, append_assoc, codes, ◌==◌, map,
  if◌then◌else◌,
}
use evcp.Base.Maps.{StrMap, at}
use evcp.Connection.Headers.{c_str}
use evcp.Console.State.{
  Services, Asked, Conn, Next, Round, cycle, leave, cycles, same_handler, query, says, vars,
  set_state,
}
use evcp.Console.Groups.{group_list, group_vars, delete_group, delete_group_text}
use evcp.Console.Sites.{site_list, delete_site, delete_site_text, delete_pages_text}
use evcp.Console.Dispatch.Ends.{cycles-round, after, in_state_0}

-- The handler, called once, ends with this request for the next event, and the database was asked these
-- texts on the way, in this order.
abbrev pub Asks : (Conn → Round) → Conn → Next → List Bytes → Type 0
Asks body c next texts =
    (c' : Conn) × ((cycles 2 body c ≡ some (next, c'))
      × (c'.queries ≡ c.queries ++ map c_str texts))

-- A first round that only changes the state and the answer, and a second one that leaves
two_rounds :
    (body : Conn → Round) (c c1 c2 : Conn) (next : Next)
    → body c ≡ cycle c1
    → body c1 ≡ leave next c2
    → cycles 2 body c ≡ some (next, c2)
unfolding after
two_rounds body c c1 c2 next e f = cycles-round 1 body c _ e ∙ cycles-round 0 body c1 _ f

-- `mgrSiteGroupList` on `sitegroupdel` asks for the deletion of the group whose id is empty, whatever id
-- the request names, and for the list after that.
group_list-deletes :
    (sv : Services) (q : Asked) (c : Conn)
    → c.hndstate ≡ 0
    → says (group_vars q) (codes "act") (codes "sitegroupdel") ≡ true
    → Asks (group_list sv q) c same_handler (delete_group_text sv [] ∷ [])
unfolding group_list delete_group query
group_list-deletes sv q c z act = (
  _,
  (
    two_rounds (group_list sv q) c (set_state 2 c) _ same_handler (in_state_0 _ z ∙ rw act refl)
        refl,
    refl,
  ),
)

-- `mgrSiteList` on `sitedel` asks for the deletion of the site that the form names, and then of its
-- pages, and for the list after that.
pub site_list-deletes :
    (sv : Services) (q : Asked) (c : Conn)
    → c.hndstate ≡ 0
    → says (vars q.post_vars) (codes "act") (codes "sitedel") ≡ true
    → Asks
        (site_list sv q)
        c
        same_handler
        (delete_site_text sv (vars q.post_vars) ∷ delete_pages_text sv (vars q.post_vars) ∷ [])
unfolding site_list delete_site query
site_list-deletes sv q c z act =
    let P = vars q.post_vars in
    let site = (query sv (delete_site_text sv P) (set_state 2 c)).1 in
    let pages = (query sv (delete_pages_text sv P) site).1 in
    (
      set_state 1 pages,
      (
        two_rounds (site_list sv q) c (set_state 2 c) _ same_handler (in_state_0 _ z ∙ rw act refl)
            refl,
        append_assoc c.queries (c_str (delete_site_text sv P) ∷ [])
            (c_str (delete_pages_text sv P) ∷ []),
      ),
    )

-- The statements that a site of a group with a domain and a URL is added by, and a page of a site
abbrev pub site_sql : Services → Bytes → Bytes → Bytes → Bytes
site_sql sv gid domain url =
    codes "INSERT INTO sites (groupId,siteDomain,siteUrl) VALUES ('"
    ++ sv.addslashes gid
    ++ codes "','"
    ++ sv.addslashes domain
    ++ codes "','"
    ++ sv.addslashes url
    ++ codes "')"

abbrev pub page_sql : Services → ℕ → Bytes → Bytes
page_sql sv site url =
    codes "INSERT INTO site_pages (siteId,pageUrl) VALUES ('"
    ++ c_str (sv.long_text site)
    ++ codes "','"
    ++ sv.addslashes url
    ++ codes "')"

-- What a form with all of its fields asks for: the site, and its first page if the site got a number.
abbrev pub insertions : Services → Conn → StrMap → List Bytes
insertions sv c M =
    let url = at (codes "newurl") M in
    let site = site_sql sv (at (codes "gid") M) (at (codes "newdomain") M) url in
    let id = sv.insert_id (c.queries ++ c_str site ∷ []) in
    if id == 0 then site ∷ [] else site ∷ page_sql sv id url ∷ []
