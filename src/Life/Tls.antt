-- ===== src/Life/Tls.antt =====
-- src/core/connection.cpp, `conn_respond` on a connection with TLS.
use evcp.Base.{
  ℕ, ◌+◌, ◌≡◌, ◌≢◌, refl, ap, ◌∙◌, ◌++◌, [], ◌∷◌, List, Option, none, some, Bool, false, length,
  ◌==◌, if◌then◌else◌,
}
use evcp.Response.Send.{written}
use evcp.Life.Blocks.{Blocks, Pointer, null, live, access, freed, IsOpen, close_blocks-Released}
use evcp.Life.Conn.{
  Conn, close_file, Outcome, goes_on, ended, hangs, faults, conn_close, next, responds, on_output,
  idle,
}

-- What `SSL_get_error` says of a call of `SSL_write`
pub data SslWrite : Type 0 where
  want_read want_write ssl_error : SslWrite
  wrote : ℕ → SslWrite

-- Behind `conn_close` the loop goes on, and looks at `r`.
unfoldable pub after_close : Outcome → Outcome → Outcome
unfolding access
after_close (ended b fs out) rest = elim (access b.resp) [ none ↦ faults | some t ↦ rest ]
after_close o rest = o

-- `r->len == r->sent`
abbrev pub all_sent : Conn → Bool
all_sent c = length c.answer.buf == c.answer.sent

-- What the loop does when all is sent
unfoldable pub sent_end : Conn → Outcome
unfolding conn_close
sent_end c =
    if c.answer.needrefill
    then goes_on (next c.handler (record c { answer = record c.answer { buf = []; sent = 0 } }))
    else conn_close c

-- After a write
abbrev pub after_write : ℕ → Conn → Conn
after_write n c = record c {
  answer = record c.answer { sent = c.answer.sent + n };
  event = idle;
  out = c.out ++ written c.answer n;
}

-- `for(;;)`; the loop is in a call of `SSL_write` when the list ends.
unfoldable pub respond_tls : List SslWrite → Conn → Outcome
unfolding sent_end after_close conn_close
respond_tls [] c = if all_sent c then sent_end c else hangs
respond_tls (want_read ∷ ws) c =
    let rest = respond_tls ws c in if all_sent c then sent_end c else rest
respond_tls (want_write ∷ ws) c =
    if all_sent c then sent_end c else goes_on (record c { event = on_output responds })
respond_tls (ssl_error ∷ ws) c =
    let rest = respond_tls ws c in
    if all_sent c then sent_end c else after_close (conn_close c) rest
respond_tls (wrote n ∷ ws) c =
    let rest = respond_tls ws (after_write n c) in if all_sent c then sent_end c else rest

-- The bytes that are missing before each of the writes
abbrev pub IsPartial : List SslWrite → Conn → Type 0
IsPartial [] c = all_sent c ≡ false
IsPartial (want_read ∷ ws) c = (all_sent c ≡ false) × IsPartial ws c
IsPartial (wrote n ∷ ws) c = (all_sent c ≡ false) × IsPartial ws (after_write n c)
IsPartial (want_write ∷ ws) c = ⊥
IsPartial (ssl_error ∷ ws) c = ⊥

access-none : (p : Pointer) → p ≢ live → access p ≡ none
unfolding access
access-none null h = refl
access-none live h = absurd (h refl)
access-none freed h = refl

close_faults :
    (c : Conn) (rest : Outcome) → IsOpen c.blocks → after_close (conn_close c) rest ≡ faults
unfolding after_close conn_close
close_faults c rest o =
    let (b, e, r) = close_blocks-Released c.blocks o in
    ap (λ (x : Option Blocks). after_close (closes x) rest) e
    ∙ ap (λ (x : Option (Unit {0})). elim x as (λ _. Outcome) [ none ↦ faults | some t ↦ rest ])
        (access-none b.resp r.resp)
  where
    closes : Option Blocks → Outcome
    closes x = elim x [ none ↦ faults | some b ↦ ended b (close_file c.fd c.files) c.out ]

-- A write that fails while bytes are missing, after any number of writes that do not, closes the
-- connection and then reads the answer that has been freed with it.
pub respond_tls-faults :
    (ws more : List SslWrite) (c : Conn)
    → IsOpen c.blocks
    → IsPartial ws c
    → respond_tls (ws ++ ssl_error ∷ more) c ≡ faults
unfolding respond_tls
respond_tls-faults [] more c o h = rw h (close_faults c _ o)
respond_tls-faults (want_read ∷ ws) more c o (h, k) = rw h (respond_tls-faults ws more c o k)
respond_tls-faults (wrote n ∷ ws) more c o (h, k) =
    rw h (respond_tls-faults ws more (after_write n c) o k)
respond_tls-faults (want_write ∷ ws) more c o h = absurd h
respond_tls-faults (ssl_error ∷ ws) more c o h = absurd h
