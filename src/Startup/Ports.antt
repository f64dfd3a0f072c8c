-- ===== src/Startup/Ports.antt =====
-- src/core/smain.cpp: what the server needs to come to its loop of events.
use evcp.Base.{
  ℕ, ◌≡◌, ◌≢◌, refl, ap, ◌∙◌, List, Option, none, some, Bool, true, false, not, Bytes, codes, ◌==◌,
  ◌&&◌, if◌then◌else◌,
}
use evcp.Base.Maps.{StrMap}
use evcp.Config.{defaults, load_lines}
use evcp.Listeners.{Bind, Added}
use evcp.Startup.{
  Boot, Running, exits, serves, ci, add_if, bind_entry, is_null, both, start_up, with_both,
  with_settings, main,
}

both-serves :
    (u v : Option (Option ℕ)) (x y : Option ℕ) → both u v ≡ serves x y → (u ≢ none) × (v ≢ none)
both-serves none v x y e = absurd (cc)
both-serves (some u) none x y e = absurd (cc)
both-serves (some u) (some v) x y e = (λ f. cc, λ f. cc)

bind_entry-none : (binds : List Bool) (listens : Bool) → bind_entry binds listens none ≡ none
unfolding bind_entry
bind_entry-none binds listens = refl

start_up-serves :
    (b : Boot) (p s : ℕ) (std ssl : Option Bind) (x y : Option ℕ)
    → start_up b p s std ssl ≡ serves x y
    → (std ≢ none) × (ssl ≢ none)
unfolding start_up
start_up-serves b p s std ssl x y e =
    after_test (not (p == 0) && (is_null std && (not (s == 0) && is_null ssl))) e
  where
    after_test :
        (t : Bool)
        → (if t
            then exits 2
            else both (bind_entry b.binds b.listens std) (bind_entry b.ssl_binds b.ssl_listens ssl))
          ≡ serves x y
        → (std ≢ none) × (ssl ≢ none)
    after_test true f = absurd (cc)
    after_test false f =
        let (u, v) =
          both-serves (bind_entry b.binds b.listens std) (bind_entry b.ssl_binds b.ssl_listens ssl)
            x y f in
        (
          λ n. u (ap (bind_entry b.binds b.listens) n ∙ bind_entry-none b.binds b.listens),
          λ n. v (
              ap (bind_entry b.ssl_binds b.ssl_listens) n
              ∙ bind_entry-none b.ssl_binds b.ssl_listens),
        )

with_both-serves :
    (u v : Option (Option Bind)) (k : Option Bind → Option Bind → Running) (x y : Option ℕ)
    → with_both u v k ≡ serves x y
    → (std : Option Bind) × ((ssl : Option Bind) × ((u ≡ some std)
          × ((v ≡ some ssl) × (k std ssl ≡ serves x y))))
with_both-serves none v k x y e = absurd (cc)
with_both-serves (some u) none k x y e = absurd (cc)
with_both-serves (some u) (some v) k x y e = (u, (v, (refl, (refl, e))))

add_if-port :
    (port : ℕ) (a : Added) (o : Option Bind) → add_if port a ≡ some o → o ≢ none → port ≢ 0
unfolding add_if
add_if-port port a o e h z = h (let f = rw z at e in cc)

twice :
    (l d : Bool) (w : Running) (x y : Option ℕ)
    → (if l then (if d then w else exits 1) else exits 1) ≡ serves x y
    → (l ≡ true) × ((d ≡ true) × (w ≡ serves x y))
twice true true w x y e = (refl, (refl, e))
twice true false w x y e = absurd (cc)
twice false d w x y e = absurd (cc)

with_settings-serves :
    (b : Boot) (conf : StrMap) (x y : Option ℕ)
    → with_settings b conf ≡ serves x y
    → (b.locks ≡ true)
      × ((b.opens_db ≡ true)
          × ((ci b (codes "PortNum") conf ≢ 0) × (ci b (codes "PostNumSSL") conf ≢ 0)))
unfolding with_settings
with_settings-serves b conf x y e =
    let port = ci b (codes "PortNum") conf in
    let ssl_port = ci b (codes "PostNumSSL") conf in
    let (locks, (opens, w)) = twice b.locks b.opens_db _ x y e in
    let (std, (ssl, (u, (v, k)))) = with_both-serves _ _ (start_up b port ssl_port) x y w in
    let (some_std, some_ssl) = start_up-serves b port ssl_port std ssl x y k in
    (locks, (opens, (add_if-port port _ std u some_std, add_if-port ssl_port _ ssl v some_ssl)))

-- The server comes to its loop of events only with a file of settings, the lock and the database, and only if
-- both `PortNum` and `PostNumSSL` are set to another number than 0.
pub main-serves :
    (b : Boot) (x y : Option ℕ)
    → main b ≡ serves x y
    → (lines : List Bytes) × ((b.file ≡ some lines)
        × ((b.locks ≡ true)
            × ((b.opens_db ≡ true)
                × ((ci b (codes "PortNum") (load_lines defaults lines) ≢ 0)
                    × (ci b (codes "PostNumSSL") (load_lines defaults lines) ≢ 0)))))
unfolding main
main-serves b x y e = from_file b.file refl e
  where
    from_file :
        (o : Option (List Bytes))
        → b.file ≡ o
        → elim o as (λ _. Running) [
          | none ↦ exits 1
          | some lines ↦ with_settings b (load_lines defaults lines)
        ]
          ≡ serves x y
        → (lines : List Bytes) × ((b.file ≡ some lines)
            × ((b.locks ≡ true)
                × ((b.opens_db ≡ true)
                    × ((ci b (codes "PortNum") (load_lines defaults lines) ≢ 0)
                        × (ci b (codes "PostNumSSL") (load_lines defaults lines) ≢ 0)))))
    from_file none f h = absurd (cc)
    from_file (some lines) f h =
        (lines, (f, with_settings-serves b (load_lines defaults lines) x y h))
