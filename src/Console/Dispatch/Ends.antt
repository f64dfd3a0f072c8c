-- ===== src/Console/Dispatch/Ends.antt =====
-- src/modules/mgr: every command that `mgrProcess` starts comes to `sp_finish_request`.
use evcp.Base.{
  ℕ, suc, [], ◌++◌, Option, none, some, Bool, true, false, Bytes, ◌≡◌, refl, ap, ◌∙◌, ◌⊎◌, inl, inr,
  beq, ◌==◌, Bool-cases, if◌then◌else◌, codes,
}
use evcp.Connection.Headers.{c_str}
use evcp.Console.State.{
  Services, Asked, Conn, Next, Round, cycle, leave, cycles, finish_request, same_handler, show_page,
  set_state, modules_template, says, vars, fill, compile, set_header, set_status, query, doc_start,
  unfinished, null_pointer,
}
use evcp.Console.Entry.{entry_page}
use evcp.Console.Groups.{
  group_list, group_add, show_groups, delete_group, delete_group_text, insert_group, group_vars,
  groups_page,
}
use evcp.Console.Sites.{
  site_list, site_add, show_sites, sites_page, delete_site, delete_site_text, delete_pages_text,
  insert_site, is_filled, show_form as show_site_form, site_form_page,
}
use evcp.Console.Urls.{
  url_list, url_add, show_urls, urls_page, delete_url, delete_url_text, show_form as show_url_form,
  url_form_page,
}
use evcp.Console.Texts.Groups.{group_form}
use evcp.Base.Maps.{StrMap, at}

-- The handler, called once, goes on to `sp_finish_request`.
abbrev pub Finishes : Option (Next × Conn) → Type 0
Finishes o = (c' : Conn) × (o ≡ some (finish_request, c'))

abbrev Leaves : Round → Type 0
Leaves r = (c' : Conn) × (r ≡ leave finish_request c')

show_page-Leaves : (sv : Services) (text : Bytes) (c : Conn) → Leaves (show_page sv text c)
unfolding show_page
show_page-Leaves sv text c = answered (sv.transform modules_template (c_str text))
  where
    answered :
        (o : Option Bytes)
        → Leaves (elim o [
          | none ↦ leave finish_request (fill sv (codes "Template parse error") c)
          | some x ↦ leave finish_request (fill sv (c_str x) c)
        ])
    answered none = (_, refl)
    answered (some x) = (_, refl)

pub entry_page-Leaves :
    (sv : Services) (template text : Bytes) (c : Conn) → Leaves (entry_page sv template text c)
unfolding entry_page
entry_page-Leaves sv template text c = answered (sv.transform template (c_str text))
  where
    answered :
        (o : Option Bytes)
        → Leaves (elim o [
          | none ↦ leave finish_request (set_status 500 c)
          | some x ↦ leave finish_request (
              fill sv (c_str x) (
                compile sv
                  (set_header (codes "Content-Type") (codes "text/html") (set_status 200 c))))
        ])
    answered none = (_, refl)
    answered (some x) = (_, refl)

unfoldable pub after : ℕ → (Conn → Round) → Round → Option (Next × Conn)
unfolding cycles
after n body r = elim r [
  | cycle c' ↦ cycles n body c'
  | leave next c' ↦ some (next, c')
  | unfinished ↦ none
  | null_pointer ↦ none
]

pub cycles-round :
    (n : ℕ) (body : Conn → Round) (c : Conn) (r : Round)
    → body c ≡ r
    → cycles (suc n) body c ≡ after n body r
unfolding cycles after
cycles-round n body c r e = ap (after n body) e

Finishes-now :
    (n : ℕ) (body : Conn → Round) (c : Conn) → Leaves (body c) → Finishes (cycles (suc n) body c)
unfolding after
Finishes-now n body c (c', e) = (c', cycles-round n body c _ e)

Finishes-next :
    (n : ℕ) (body : Conn → Round) (c c' : Conn)
    → body c ≡ cycle c'
    → Finishes (cycles n body c')
    → Finishes (cycles (suc n) body c)
unfolding after
Finishes-next n body c c' e (c2, f) = (c2, cycles-round n body c _ e ∙ f)

-- The handler, called again after each time that it asks for it, goes on to `sp_finish_request`: at
-- once, or the second time.
abbrev pub Ends : (Conn → Round) → Conn → Type 0
Ends body c =
    Finishes (cycles 3 body c)
    ⊎ ((c' : Conn) × ((cycles 3 body c ≡ some (same_handler, c')) × Finishes (cycles 1 body c')))

-- A handler that shows a list in state 1, and in state 2 deletes a row and asks for the list.
module _ (body : Conn → Round) (shows : (c : Conn) → Leaves (body (set_state 1 c)))
    (deletes : (c : Conn)
      → (c' : Conn) × (body (set_state 2 c) ≡ leave same_handler (set_state 1 c'))) where
  list-Ends :
      (c : Conn) (b : Bool) → body c ≡ cycle (set_state (if b then 2 else 1) c) → Ends body c
  unfolding after
  list-Ends c false e = inl (Finishes-next 2 body c _ e (Finishes-now 1 body _ (shows c)))
  list-Ends c true e =
      let (c', d) = deletes c in
      inr (
        _,
        (cycles-round 2 body c _ e ∙ cycles-round 1 body _ _ d, Finishes-now 0 body _ (shows c')),
      )

-- A handler that shows a form in state 1, and in state 2 does what the form asks for, or shows it again.
module _ (body : Conn → Round) (shows : (c : Conn) → Leaves (body (set_state 1 c)))
    (acts : (c : Conn)
      → Leaves (body (set_state 2 c)) ⊎ (body (set_state 2 c) ≡ cycle (set_state 1 c))) where
  form-Ends :
      (c c' : Conn) (b : Bool) → body c ≡ cycle (set_state (if b then 2 else 1) c') → Ends body c
  form-Ends c c' false e = inl (Finishes-next 2 body c _ e (Finishes-now 1 body _ (shows c')))
  form-Ends c c' true e = elim (acts c') [
    | inl l ↦ inl (Finishes-next 2 body c _ e (Finishes-now 1 body _ l))
    | inr again ↦ inl (
        Finishes-next 2 body c _ e
          (Finishes-next 1 body _ _ again (Finishes-now 0 body _ (shows c'))))
  ]

pub once-Ends : (body : Conn → Round) (c : Conn) → Leaves (body c) → Ends body c
once-Ends body c l = inl (Finishes-now 2 body c l)

-- The round of a handler in state 0
pub in_state_0 : {A : Round} {n : ℕ} (B : Round) → n ≡ 0 → (if n == 0 then A else B) ≡ A
in_state_0 B e = rw e refl

show_groups-Leaves : (sv : Services) (c : Conn) → Leaves (show_groups sv c)
unfolding show_groups
show_groups-Leaves sv c = show_page-Leaves sv (groups_page sv c).0 (groups_page sv c).1

pub group_list-Ends :
    (sv : Services) (q : Asked) (c : Conn) → c.hndstate ≡ 0 → Ends (group_list sv q) c
unfolding group_list delete_group
group_list-Ends sv q c e =
    list-Ends (group_list sv q) (λ c. show_groups-Leaves sv (set_state 1 c))
      (λ c. ((query sv (delete_group_text sv []) (set_state 2 c)).1, refl)) c
      (says (group_vars q) (codes "act") (codes "sitegroupdel")) (in_state_0 _ e)

show_sites-Leaves : (sv : Services) (c : Conn) → Leaves (show_sites sv c)
unfolding show_sites
show_sites-Leaves sv c = show_page-Leaves sv (sites_page sv c).0 (sites_page sv c).1

pub site_list-Ends :
    (sv : Services) (q : Asked) (c : Conn) → c.hndstate ≡ 0 → Ends (site_list sv q) c
unfolding site_list delete_site
site_list-Ends sv q c e =
    list-Ends (site_list sv q) (λ c. show_sites-Leaves sv (set_state 1 c))
      (λ c.
        let P = vars q.post_vars in
        (
          (query sv (delete_pages_text sv P)
              (query sv (delete_site_text sv P) (set_state 2 c)).1).1,
          refl,
        ))
      c (says (vars q.post_vars) (codes "act") (codes "sitedel")) (in_state_0 _ e)

show_urls-Leaves : (sv : Services) (M : StrMap) (c : Conn) → Leaves (show_urls sv M c)
unfolding show_urls
show_urls-Leaves sv M c = show_page-Leaves sv (urls_page sv M c).0 (urls_page sv M c).1

pub url_list-Ends : (sv : Services) (q : Asked) (c : Conn) → c.hndstate ≡ 0 → Ends (url_list sv q) c
unfolding url_list delete_url
url_list-Ends sv q c e =
    list-Ends (url_list sv q) (λ c. show_urls-Leaves sv (vars q.get_vars) (set_state 1 c))
      (λ c. ((query sv (delete_url_text sv (vars q.post_vars)) (set_state 2 c)).1, refl)) c
      (says (vars q.post_vars) (codes "act") (codes "siteurldel")) (in_state_0 _ e)

insert_group-acts :
    (sv : Services) (M : StrMap) (c : Conn)
    → Leaves (insert_group sv M c) ⊎ (insert_group sv M c ≡ cycle (set_state 1 c))
unfolding insert_group
insert_group-acts sv M c = elim (Bool-cases (beq (at (codes "newname") M) [])) [
  | inl missing ↦ inr (rw missing refl)
  | inr there ↦ rw there (inl (_, refl))
]

insert_site-acts :
    (sv : Services) (M : StrMap) (c : Conn)
    → Leaves (insert_site sv M c) ⊎ (insert_site sv M c ≡ cycle (set_state 1 c))
unfolding insert_site
insert_site-acts sv M c = elim (Bool-cases (is_filled M)) [
  | inl there ↦ rw there (inl (_, refl))
  | inr missing ↦ inr (rw missing refl)
]

pub group_add-Ends :
    (sv : Services) (q : Asked) (c : Conn) → c.hndstate ≡ 0 → Ends (group_add sv q) c
unfolding group_add
group_add-Ends sv q c e =
    form-Ends (group_add sv q) (λ c. show_page-Leaves sv (doc_start ++ group_form) (set_state 1 c))
      (λ c. insert_group-acts sv (vars q.post_vars) (set_state 2 c)) c
      (compile sv (set_header (codes "Content-Type") (codes "text/html") (set_status 200 c)))
      (says (vars q.post_vars) (codes "sok") (codes "ok")) (in_state_0 _ e)

show_site_form-Leaves : (sv : Services) (c : Conn) → Leaves (show_site_form sv c)
unfolding show_site_form
show_site_form-Leaves sv c = show_page-Leaves sv (site_form_page sv c).0 (site_form_page sv c).1

pub site_add-Ends : (sv : Services) (q : Asked) (c : Conn) → c.hndstate ≡ 0 → Ends (site_add sv q) c
unfolding site_add
site_add-Ends sv q c e =
    form-Ends (site_add sv q) (λ c. show_site_form-Leaves sv (set_state 1 c))
      (λ c. insert_site-acts sv (vars q.post_vars) (set_state 2 c)) c
      (compile sv (set_status 200 c)) (says (vars q.post_vars) (codes "sok") (codes "ok"))
      (in_state_0 _ e)

show_url_form-Leaves : (sv : Services) (c : Conn) → Leaves (show_url_form sv c)
unfolding show_url_form
show_url_form-Leaves sv c = show_page-Leaves sv (url_form_page sv c).0 (url_form_page sv c).1

pub url_add-Ends : (sv : Services) (q : Asked) (c : Conn) → c.hndstate ≡ 0 → Ends (url_add sv q) c
unfolding url_add
url_add-Ends sv q c e =
    form-Ends (url_add sv q) (λ c. show_url_form-Leaves sv (set_state 1 c))
      (λ c. insert_site-acts sv (vars q.post_vars) (set_state 2 c)) c
      (compile sv (set_status 200 c)) (says (vars q.post_vars) (codes "sok") (codes "ok"))
      (in_state_0 _ e)
