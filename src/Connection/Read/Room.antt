-- ===== src/Connection/Read/Room.antt =====
-- src/core/connection.cpp, `conn_read`: the room in the request's buffer.
use evcp.Base.{ℕ, ◌+◌, ◌≤◌, ◌≡◌, Bool-cases, inl, inr, refl, some, ltb, ◌-◌, length, arith}
use evcp.Connection.Read.{Reading, grow, reqbufpart, Regrown, in_place}

-- What is filled is within what is allocated, which is never less than at the start.
abbrev pub Fits : Reading → Type 0
Fits c = (length c.buf ≤ c.size) × (512 ≤ c.size)

-- When the buffer can grow where it is there is room for 512 bytes or more whenever `read` is called, and what was read
-- before is kept.
pub grow-room :
    (regrow : ℕ → Regrown) (c : Reading)
    → ((n : ℕ) → regrow n ≡ in_place)
    → Fits c
    → (d : Reading) × ((grow regrow c ≡ some d) × ((length d.buf + 512 ≤ d.size) × (d.buf ≡ c.buf)))
unfolding grow
grow-room regrow c h f = elim (Bool-cases (ltb (c.size - 512) (length c.buf))) [
  | inl y ↦ (
    record c { size = c.size + reqbufpart + 1 },
    (rw (y, h (c.size + reqbufpart + 1)) refl, (omega arith, refl)),
  )
  | inr n ↦ (c, (rw n refl, (ground arith, refl)))
]
