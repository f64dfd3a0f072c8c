-- ===== src/Console/Ips/Range.antt =====
-- src/modules/mgr/mgr_ip.cpp: what the loop over a range of addresses adds to the pool.
use evcp.Base.{
  ℕ, zero, suc, ◌+◌, ◌-◌, ◌*◌, ◌^◌, ◌≤◌, ◌<◌, ◌≡◌, refl, sym, ap, ◌∙◌, [], ◌∷◌, ◌++◌, List, Option,
  some, Bool, true, false, Bytes, map, append-nil, append_assoc, arith, Bool-cases, inl, inr, ◌⊎◌,
}
use evcp.Connection.Headers.{c_str}
use evcp.Console.State.{Services, Conn, query, fill}
use evcp.Console.Ips.{Ip, goes_on, next_ip, ip_text, insert_ip_text, insert_ip, insert_range}

-- The address as one number of 32 bits.
abbrev pub value : Ip → ℕ
value x = ((x.a * 256 + x.b) * 256 + x.c) * 256 + x.d

abbrev pub IsIp : Ip → Type 0
IsIp x = (x.a ≤ 255) × ((x.b ≤ 255) × ((x.c ≤ 255) × (x.d ≤ 255)))

-- `from`, `from + 1`, …: `n` numbers
abbrev pub count_up : ℕ → ℕ → List ℕ
count_up from zero = []
count_up from (suc n) = from ∷ count_up (from + 1) n

next_ip-IsIp :
    (x : Ip) → IsIp x → value x < 2 ^ 32 - 1 → IsIp (next_ip x) × (value (next_ip x) ≡ value x + 1)
unfolding next_ip
next_ip-IsIp x h l = ground arith

goes_on-below : (x y : Ip) → IsIp x → IsIp y → value x < value y → goes_on x y ≡ true
unfolding goes_on
goes_on-below x y h k l = ground arith

goes_on-last : (x y : Ip) → IsIp x → IsIp y → goes_on x y ≡ true → value x < 2 ^ 32 - 1
unfolding goes_on
goes_on-last x y h k e = ground arith

goes_on-same : (x y : Ip) → IsIp x → IsIp y → value x ≡ value y → goes_on x y ≡ false
unfolding goes_on
goes_on-same x y h k e = ground arith

-- What `insert_ip` asks the database.
abbrev pub insertion : Services → Ip → Bytes
insertion sv ip = c_str (insert_ip_text sv (ip_text ip))

-- The loop ended, and it asked for these addresses in this order.
abbrev pub Inserts : Services → Option Conn → Conn → List Ip → Type 0
Inserts sv o c ips =
    (c' : Conn) × ((o ≡ some c') × (c'.queries ≡ c.queries ++ map (insertion sv) ips))

one_round :
    (n : ℕ) (sv : Services) (x y : Ip) (c : Conn) (b : Bool)
    → goes_on x y ≡ b
    → insert_range (suc n) sv x y c ≡ elim b [
      | false ↦ some c
      | true ↦ insert_range n sv (next_ip x) y (insert_ip sv (next_ip x) c)
    ]
unfolding insert_range
one_round n sv x y c b e =
    ap
      (λ go. elim go as (λ _. Option Conn) [
        | false ↦ some c
        | true ↦ insert_range n sv (next_ip x) y (insert_ip sv (next_ip x) c)
      ])
      e

insert_ip-queries :
    (sv : Services) (x : Ip) (c : Conn)
    → (insert_ip sv x c).queries ≡ c.queries ++ insertion sv x ∷ []
unfolding insert_ip query fill
insert_ip-queries sv x c = refl

Inserts-next :
    (sv : Services) (o : Option Conn) (x : Ip) (c : Conn) (ips : List Ip)
    → Inserts sv o (insert_ip sv x c) ips
    → Inserts sv o c (x ∷ ips)
Inserts-next sv o x c ips (c', (e, q)) = (
  c',
  (
    e,
    q
        ∙ rw (insert_ip-queries sv x c)
            (append_assoc c.queries (insertion sv x ∷ []) (map (insertion sv) ips)),
  ),
)

x_below_y : (v w : ℕ) → v ≤ w → (v ≡ w) ⊎ (v < w)
x_below_y v w l = omega arith

at_most : (y : Ip) → IsIp y → value y < 2 ^ 32
at_most y k = omega arith

nothing_left : {v w : ℕ} → v ≡ w → 0 ≡ w - v
nothing_left e = omega arith

counted_up :
    {vs : List ℕ} {next : ℕ} (v w : ℕ)
    → v < w
    → next ≡ v + 1
    → vs ≡ count_up (next + 1) (w - next)
    → next ∷ vs ≡ count_up (v + 1) (w - v)
counted_up v w l up e = rw (e, up, more v w l) refl
  where
    more : (v w : ℕ) → v < w → w - v ≡ suc (w - (v + 1))
    more v w l = omega arith

-- For a first address that is not above the last one, the loop ends, and it adds the addresses behind
-- the first one up to the last one, each once and in their order; the first one is not added.
pub insert_range-values :
    (n : ℕ) (sv : Services) (x y : Ip) (c : Conn)
    → IsIp x
    → IsIp y
    → value x ≤ value y
    → value y - value x < n
    → (ips : List Ip) × (Inserts sv (insert_range n sv x y c) c ips
        × (map value ips ≡ count_up (value x + 1) (value y - value x)))
insert_range-values zero sv x y c h k l m = absurd (omega arith)
insert_range-values (suc n) sv x y c h k l m = elim (x_below_y (value x) (value y) l) [
  | inl e ↦ (
    [],
    (
      (c, (one_round n sv x y c false (goes_on-same x y h k e), sym (append-nil c.queries))),
      ap (count_up (value x + 1)) (nothing_left e),
    ),
  )
  | inr below ↦
      let (ok, up) = next_ip-IsIp x h (omega (arith, at_most y k)) in
      let (ips, (done, values)) =
        insert_range-values n sv (next_ip x) y (insert_ip sv (next_ip x) c) ok k (omega arith)
          (omega arith) in
      let (c', (e, q)) = Inserts-next sv _ (next_ip x) c ips done in
      (
        next_ip x ∷ ips,
        (
          (c', (one_round n sv x y c true (goes_on-below x y h k below) ∙ e, q)),
          counted_up (value x) (value y) below up values,
        ),
      )
]

-- The loop of `mgrIpAdd` ends for every two addresses, whichever is the larger, in fewer rounds than
-- there are addresses from the first one on.
insert_range_ends :
    (n : ℕ) (sv : Services) (x y : Ip) (c : Conn)
    → IsIp x
    → IsIp y
    → 2 ^ 32 ≤ value x + n
    → (c' : Conn) × (insert_range n sv x y c ≡ some c')
insert_range_ends zero sv x y c h k l = absurd (omega arith)
insert_range_ends (suc n) sv x y c h k l = elim (Bool-cases (goes_on x y)) [
  | inr stop ↦ (c, one_round n sv x y c false stop)
  | inl go ↦
      let below = goes_on-last x y h k go in
      let (ok, up) = next_ip-IsIp x h below in
      let (c', e) =
        insert_range_ends n sv (next_ip x) y (insert_ip sv (next_ip x) c) ok k (omega arith) in
      (c', one_round n sv x y c true go ∙ e)
]
