-- ===== src/Session/Lifetime.antt =====
-- A session from its registration to its end.
use evcp.Base.{
  ℕ, ◌%◌, ◌^◌, ◌<◌, ◌≡◌, refl, inl, inr, List, [], ◌∷◌, Option, none, some, Bytes, false, ◌∙◌,
  Option-cases, Bool-cases, beq, beq_refl, ap, ◌++◌, length, codes, ◌==◌, arith, if◌then◌else◌,
}
use mathlib.Core.Path.{subst}
use evcp.Base.Maps.{StrMap, at, at-insert}
use evcp.Session.Ids.{decode_sid-sid_of, sid_of_nonempty}
use evcp.Session.{
  Session, Sessions, empty, entry, find, kill, touch, sid_of, decode_sid, fresh_id, Registered,
  registered, register, accepted, deletes_cookie, check, cookie_del, cookie_set,
}

find-kill : (i j : ℕ) (m : Sessions) → find j (kill i m) ≡ (if i == j then none else find j m)
unfolding find kill
find-kill i j empty = ground arith
find-kill i j (entry s m) = ground (arith, find-kill i j m)

find-fresh_id : (ids : List ℕ) (m : Sessions) (i : ℕ) → fresh_id ids m ≡ some i → find i m ≡ none
unfolding fresh_id
find-fresh_id [] m i e = cc
find-fresh_id (j ∷ ids) m i e = grind (arith, find-fresh_id ids m i)

-- Where `sessionCheck` stands once the cookie is read.
check-decoded :
    (now : ℕ) (sid : Bytes) (headers h_out : StrMap) (m : Sessions) (o : Option ℕ)
    → beq sid [] ≡ false
    → decode_sid sid ≡ o
    → check now sid headers m h_out ≡ elim o [
      | none ↦ deletes_cookie (cookie_del (codes "SPSID") headers h_out)
      | some i ↦ elim (find i m) [
        | none ↦ deletes_cookie (cookie_del (codes "SPSID") headers h_out)
        | some s ↦ accepted (record s { lastuse = now }) (touch i now m)
      ]
    ]
unfolding check
check-decoded now sid headers h_out m o n e = rw (n, e) refl

-- What `sessionRegister` leaves: a new entry with the user, and the cookie in the answer's headers
abbrev Made : ℕ → Bytes → Sessions → StrMap → Registered → Type 0
Made uid uname m h_out g =
    (find g.sess.id m ≡ none)
    × ((g.sessions ≡ entry (g.sess) m)
        × ((g.h_out ≡ cookie_set (codes "SPSID") (sid_of g.sess.id) h_out)
            × ((g.sess.user_id ≡ uid) × (g.sess.user_login ≡ uname))))

-- `Set-Cookie`, as it is sent for a session's id
abbrev pub cookie_text : ℕ → Bytes
cookie_text id = codes "SPSID=" ++ (sid_of id ++ codes "; expires=0; path=/;")

at-cookie_set :
    (id : ℕ) (h_out : StrMap)
    → at (codes "Set-Cookie") (cookie_set (codes "SPSID") (sid_of id) h_out) ≡ cookie_text id
unfolding cookie_set
at-cookie_set id h_out =
    at-insert (codes "Set-Cookie") (codes "Set-Cookie") (cookie_text id) h_out
    ∙ rw (beq_refl (codes "Set-Cookie")) refl

registered-entry :
    (i now uid vnid : ℕ) (uname peer : Bytes) (m : Sessions) (h_out : StrMap) (g : Registered)
    → find i m ≡ none
    → registered i now uid vnid uname peer m h_out ≡ g
    → Made uid uname m h_out g
registered-entry i now uid vnid uname peer m h_out g n e =
    subst (Made uid uname m h_out) e (unfold registered in (n, (refl, (refl, (refl, refl)))))

register-entry :
    (ids : List ℕ) (now uid vnid : ℕ) (uname peer : Bytes) (m : Sessions) (h_out : StrMap)
    (g : Registered)
    → register ids now uid vnid uname peer m h_out ≡ some g
    → Made uid uname m h_out g
unfolding register
register-entry ids now uid vnid uname peer m h_out g e = elim (Option-cases (fresh_id ids m)) [
  | inl n ↦ (let q = rw (register, n) at e in cc)
  | inr (i, f) ↦
      registered-entry i now uid vnid uname peer m h_out g (find-fresh_id ids m i f)
        (let q = rw (register, f) at e in cc)
]

find-entry :
    (j : ℕ) (s : Session) (m : Sessions)
    → find j (entry s m) ≡ (if s.id == j then some s else find j m)
unfolding find
find-entry j s m = refl

find-entry_own : (s : Session) (m : Sessions) → find s.id (entry s m) ≡ some s
unfolding find
find-entry_own s m = ground arith

-- With the cookie of a session that is found.
check-found :
    (later : ℕ) (headers h_out : StrMap) (s : Session) (m : Sessions)
    → s.id < 2 ^ 32
    → find s.id m ≡ some s
    → check later (sid_of s.id) headers m h_out ≡ (
        if length (sid_of s.id) % 2 == 0
        then accepted (record s { lastuse = later }) (touch s.id later m)
        else deletes_cookie (cookie_del (codes "SPSID") headers h_out))
check-found later headers h_out s m h f =
    check-decoded later (sid_of s.id) headers h_out m
      (if length (sid_of s.id) % 2 == 0 then some (s.id) else none) (sid_of_nonempty (s.id))
      (decode_sid-sid_of (s.id) h)
    ∙ elim (Bool-cases (length (sid_of s.id) % 2 == 0)) [
      | inl y ↦ rw (y, f) refl
      | inr n ↦ rw n refl
    ]

-- Where `sessionRegister` has found an id, and it is one of 32 bits: the id is new, the other sessions
-- are found as before, the session is the user's, and the answer's `Set-Cookie` gives `SPSID` the id's
-- hexadecimal digits. This text is accepted by `sessionCheck`, which returns the session with its
-- time of use set, if it has an even number of digits. If it has an odd number it is refused, and the
-- cookie deleted.
pub check-register :
    (ids : List ℕ) (now later uid vnid : ℕ) (uname peer : Bytes) (m : Sessions)
    (headers h_out : StrMap) (g : Registered) (j : ℕ)
    → register ids now uid vnid uname peer m h_out ≡ some g
    → g.sess.id < 2 ^ 32
    → (find g.sess.id m ≡ none)
      × ((g.sess.user_id ≡ uid) × (g.sess.user_login ≡ uname))
      × (at (codes "Set-Cookie") g.h_out ≡ cookie_text g.sess.id)
      × (find j g.sessions ≡ (if g.sess.id == j then some (g.sess) else find j m))
      × (check later (sid_of g.sess.id) headers g.sessions h_out ≡ (
          if length (sid_of g.sess.id) % 2 == 0
          then accepted (record (g.sess) { lastuse = later }) (touch g.sess.id later g.sessions)
          else deletes_cookie (cookie_del (codes "SPSID") headers h_out)))
check-register ids now later uid vnid uname peer m headers h_out g j e h =
    let (new, (made, (cookie, user))) = register-entry ids now uid vnid uname peer m h_out g e in
    (
      new,
      user,
      ap (at (codes "Set-Cookie")) cookie ∙ at-cookie_set g.sess.id h_out,
      rw made (find-entry j (g.sess) m),
      rw made (
          check-found later headers h_out (g.sess) (entry (g.sess) m) h
            (find-entry_own (g.sess) m)),
    )

-- A cookie that names a session that was killed is refused, and deleted.
pub check-kill :
    (now i : ℕ) (sid : Bytes) (headers h_out : StrMap) (m : Sessions)
    → decode_sid sid ≡ some i
    → beq sid [] ≡ false
    → check now sid headers (kill i m) h_out
      ≡ deletes_cookie (cookie_del (codes "SPSID") headers h_out)
check-kill now i sid headers h_out m e n =
    check-decoded now sid headers h_out (kill i m) (some i) n e
    ∙ rw (find-kill i i m) (ground arith)
