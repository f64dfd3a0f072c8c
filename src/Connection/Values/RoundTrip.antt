-- ===== src/Connection/Values/RoundTrip.antt =====
-- Variables as a browser encodes them, read back by `sp_read_http_values`.
use evcp.Base.{
  ℕ, ◌+◌, ◌-◌, ◌/◌, ◌%◌, ◌<◌, ◌≡◌, refl, ◌∙◌, ap, ◌≢◌, ◌⊎◌, [], ◌∷◌, ◌++◌, ◌||◌, List, Bool, true,
  false, Bytes, ltb, ◌==◌, within, if◌then◌else◌, beq_iff, beq_refl, append_assoc, append-nil,
  arith, inl, inr, Bool-cases,
}
use evcp.Base.Maps.{StrMap, insert}
use evcp.Connection.Values.{
  State, name, equal, amp, value, value_percent, value_percent2, Reader, step_in, read_loop, finish,
  read_http_values, reader, ends_text, first_digit, second_digit,
}

-- Letters, digits and "-", "_", "." stand for themselves.
abbrev pub is_unreserved : ℕ → Bool
is_unreserved c =
    within b'a' b'z' c
    || within b'A' b'Z' c
    || within b'0' b'9' c
    || c == b'-'
    || c == b'_'
    || c == b'.'

abbrev hex_digit : ℕ → ℕ
hex_digit d = if ltb d 10 then b'0' + d else b'A' + d - 10

-- One byte of a value.
abbrev escape_byte : ℕ → Bytes → Bytes
escape_byte c rest =
    if is_unreserved c then c ∷ rest else b'%' ∷ hex_digit (c / 16) ∷ hex_digit (c % 16) ∷ rest

abbrev pub escape : Bytes → Bytes → Bytes
escape [] rest = rest
escape (c ∷ cs) rest = escape_byte c (escape cs rest)

abbrev pub IsKey : Bytes → Type 0
IsKey [] = Unit
IsKey (c ∷ cs) = (is_unreserved c ≡ true) × IsKey cs

abbrev pub IsValue : Bytes → Type 0
IsValue [] = Unit
IsValue (c ∷ cs) = (c < 256) × IsValue cs

read_loop-step :
    (r : Reader) (c : ℕ) (cs : Bytes)
    → ends_text c ≡ false
    → read_loop r (c ∷ cs) ≡ read_loop (step_in r.state r c) cs
unfolding read_loop
read_loop-step r c cs h = rw h

read_loop_to :
    (r q : Reader) (c : ℕ) (cs : Bytes)
    → ends_text c ≡ false
    → step_in r.state r c ≡ q
    → read_loop r (c ∷ cs) ≡ read_loop q cs
read_loop_to r q c cs h e = read_loop-step r c cs h ∙ ap (λ x. read_loop x cs) e

hex_digit_stays : (d : ℕ) → d < 16 → ends_text (hex_digit d) ≡ false
hex_digit_stays d h = ground arith

step_in-first :
    (r : Reader) (d : ℕ) → d < 16 → step_in value_percent r (hex_digit d) ≡ first_digit r d
unfolding step_in
step_in-first r d h = ground arith

step_in-second :
    (r : Reader) (d : ℕ) → d < 16 → step_in value_percent2 r (hex_digit d) ≡ second_digit r d
unfolding step_in
step_in-second r d h = ground arith

-- An escape puts its byte behind the value, from either state that reads one.
read_loop_escape :
    (r : Reader) (c : ℕ) (rest : Bytes)
    → step_in r.state r b'%' ≡ record r { state = value_percent }
    → c < 256
    → read_loop r (b'%' ∷ hex_digit (c / 16) ∷ hex_digit (c % 16) ∷ rest)
      ≡ read_loop (record r { val = r.val ++ c ∷ []; h = c; state = value }) rest
read_loop_escape r c rest e h =
    read_loop-step r b'%' (hex_digit (c / 16) ∷ hex_digit (c % 16) ∷ rest) refl
    ∙ ap (λ q. read_loop q (hex_digit (c / 16) ∷ hex_digit (c % 16) ∷ rest)) e
    ∙ read_loop-step (record r { state = value_percent }) (hex_digit (c / 16))
        (hex_digit (c % 16) ∷ rest) (hex_digit_stays (c / 16) (omega arith))
    ∙ ap (λ q. read_loop q (hex_digit (c % 16) ∷ rest))
        (step_in-first (record r { state = value_percent }) (c / 16) (omega arith))
    ∙ read_loop-step (first_digit r (c / 16)) (hex_digit (c % 16)) rest
        (hex_digit_stays (c % 16) (omega arith))
    ∙ ap (λ q. read_loop q rest) (step_in-second (first_digit r (c / 16)) (c % 16) (omega arith))
    ∙ ap (λ (b : ℕ). read_loop (record r { val = r.val ++ b ∷ []; h = b; state = value }) rest)
        (omega arith)

-- A byte of a value puts that byte behind the value, whether or not it is escaped.
read_loop-escape_byte :
    (r : Reader) (c : ℕ) (rest : Bytes)
    → r.state ≡ value
    → c < 256
    → (h : ℕ) × (read_loop r (escape_byte c rest)
        ≡ read_loop (record r { val = r.val ++ c ∷ []; h = h }) rest)
read_loop-escape_byte r c rest e h = elim (Bool-cases (is_unreserved c)) [
  | inl plain ↦ (
    r.h,
    rw plain (
        read_loop-step r c rest (ground arith)
        ∙ ap (λ q. read_loop q rest) (unfold step_in in ground arith)),
  )
  | inr odd ↦ (
    c,
    rw odd (
        read_loop_escape r c rest (unfold step_in in ground arith) h
        ∙ ap (λ q. read_loop q rest) (ground arith)),
  )
]

read_loop-escape :
    (v : Bytes) (r : Reader) (rest : Bytes)
    → r.state ≡ value
    → IsValue v
    → (h : ℕ) × (read_loop r (escape v rest)
        ≡ read_loop (record r { val = r.val ++ v; h = h }) rest)
read_loop-escape [] r rest e _ = (r.h, rw append-nil refl)
read_loop-escape (c ∷ cs) r rest e (b, bs) =
    let (h1, one) = read_loop-escape_byte r c (escape cs rest) e b in
    let (h2, more) = read_loop-escape cs (record r { val = r.val ++ c ∷ []; h = h1 }) rest e bs in
    (h2, one ∙ more ∙ rw append_assoc)

read_loop_key :
    (k : Bytes) (r : Reader) (rest : Bytes)
    → r.state ≡ name
    → IsKey k
    → read_loop r (k ++ rest) ≡ read_loop (record r { key = r.key ++ k }) rest
read_loop_key [] r rest e _ = rw append-nil refl
read_loop_key (c ∷ cs) r rest e (b, bs) =
    read_loop_to r (record r { key = r.key ++ c ∷ [] }) c (cs ++ rest) (ground arith)
      (unfold step_in in ground arith)
    ∙ read_loop_key cs (record r { key = r.key ++ c ∷ [] }) rest e bs
    ∙ rw append_assoc

-- The state in which a value leaves the reader.
abbrev value_state : Bytes → State
value_state [] = equal
value_state (c ∷ cs) = value

read_loop_value :
    (v : Bytes) (r : Reader) (rest : Bytes)
    → r.state ≡ equal
    → r.val ≡ []
    → IsValue v
    → (h : ℕ) × (read_loop r (escape v rest)
        ≡ read_loop (record r { val = v; h = h; state = value_state v }) rest)
read_loop_value [] r rest e n _ = (r.h, ap (λ q. read_loop q rest) (ground arith))
read_loop_value (c ∷ cs) r rest e n (b, bs) = elim (Bool-cases (is_unreserved c)) [
  | inl plain ↦
      let q = record r { val = c ∷ []; state = value } in
      let (h, more) = read_loop-escape cs q rest refl bs in
      (
        h,
        rw plain (
            read_loop_to r q c (escape cs rest) (ground arith) (unfold step_in in ground arith)
            ∙ more),
      )
  | inr odd ↦
      let q = record r { val = r.val ++ c ∷ []; h = c; state = value } in
      let (h, more) = read_loop-escape cs q rest refl bs in
      (
        h,
        rw odd (
            read_loop_escape r c (escape cs rest) (unfold step_in in ground arith) b
            ∙ more
            ∙ ap (λ x. read_loop x rest) (rw n refl)),
      )
]

-- What may stand in front of a key: the start of the text, or a closed variable.
abbrev IsReady : Reader → Type 0
IsReady r = (((r.state ≡ name) × (r.key ≡ [])) ⊎ (r.state ≡ amp)) × (r.val ≡ [])

abbrev pair_text : Bytes → Bytes → Bytes → Bytes
pair_text k v rest = k ++ b'=' ∷ escape v rest

step_in-first_key :
    (r : Reader) (c : ℕ)
    → ((r.state ≡ name) × (r.key ≡ [])) ⊎ (r.state ≡ amp)
    → is_unreserved c ≡ true
    → step_in r.state r c ≡ record r { state = name; key = c ∷ [] }
unfolding step_in
step_in-first_key r c (inl (e, n)) b = ground arith
step_in-first_key r c (inr e) b = ground arith

-- One variable, with what follows it.
read_loop_pair :
    (k v : Bytes) (r : Reader) (rest : Bytes)
    → IsReady r
    → k ≢ []
    → IsKey k
    → IsValue v
    → (h : ℕ) × (read_loop r (pair_text k v rest)
        ≡ read_loop (record r { state = value_state v; key = k; val = v; h = h }) rest)
read_loop_pair [] v r rest ready ne _ _ = absurd (ne refl)
read_loop_pair (c ∷ cs) v r rest (st, n) ne (b, bs) vs =
    let text = escape v rest in
    let named = record r { state = name; key = c ∷ cs } in
    let (h, last) = read_loop_value v (record named { state = equal }) rest refl n vs in
    (
      h,
      read_loop_to r (record r { state = name; key = c ∷ [] }) c (cs ++ b'=' ∷ text) (ground arith)
            (step_in-first_key r c st b)
          ∙ read_loop_key cs (record r { state = name; key = c ∷ [] }) (b'=' ∷ text) refl bs
          ∙ read_loop_to named (record named { state = equal }) b'=' text refl
              (unfold step_in in ground arith)
          ∙ last,
    )

abbrev pub query_text : List (Bytes × Bytes) → Bytes
query_text [] = []
query_text ((k, v) ∷ []) = pair_text k v []
query_text ((k, v) ∷ next ∷ more) = pair_text k v (b'&' ∷ query_text (next ∷ more))

abbrev pub AreVariables : List (Bytes × Bytes) → Type 0
AreVariables [] = Unit
AreVariables ((k, v) ∷ more) = (k ≢ []) × IsKey k × IsValue v × AreVariables more

-- The assignments in their order.
abbrev pub assign_all : List (Bytes × Bytes) → StrMap → StrMap
assign_all [] m = m
assign_all ((k, v) ∷ more) m = assign_all more (insert k v m)

-- Behind a variable: the map has it, and the next one may start.
read_loop_amp :
    (k v : Bytes) (r : Reader) (h : ℕ) (rest : Bytes)
    → (q : Reader) × IsReady q
      × (q.map ≡ insert k v r.map)
      × (read_loop (record r { state = value_state v; key = k; val = v; h = h }) (b'&' ∷ rest)
          ≡ read_loop q rest)
read_loop_amp k [] r h rest = (
  record r { state = name; key = []; val = []; h = h; map = insert k [] r.map },
  (inl (refl, refl), refl),
  refl,
  read_loop_to _ _ b'&' rest refl (unfold step_in in refl),
)
read_loop_amp k (c ∷ cs) r h rest = (
  record r { state = amp; key = []; val = []; h = h; map = insert k (c ∷ cs) r.map },
  (inr refl, refl),
  refl,
  read_loop_to _ _ b'&' rest refl (unfold step_in in refl),
)

finish_pair :
    (k v : Bytes) (r : Reader) (h : ℕ)
    → k ≢ []
    → finish (record r { state = value_state v; key = k; val = v; h = h }) ≡ insert k v r.map
unfolding finish
finish_pair k [] r h ne = ground (arith, beq_iff k [])
finish_pair k (c ∷ cs) r h ne = ground (arith, beq_iff k [])

finish-read_loop :
    (k v : Bytes) (more : List (Bytes × Bytes)) (r : Reader)
    → IsReady r
    → AreVariables ((k, v) ∷ more)
    → finish (read_loop r (query_text ((k, v) ∷ more))) ≡ assign_all ((k, v) ∷ more) r.map
finish-read_loop k v [] r ready (ne, ks, vs, _) =
    let (h, e) = read_loop_pair k v r [] ready ne ks vs in
    ap finish e ∙ ap finish (end_of _) ∙ finish_pair k v r h ne
  where
    end_of : (q : Reader) → read_loop q [] ≡ q
    end_of q = unfold read_loop in refl
finish-read_loop k v ((k', v') ∷ more) r ready (ne, ks, vs, others) =
    let rest = query_text ((k', v') ∷ more) in
    let (h, e) = read_loop_pair k v r (b'&' ∷ rest) ready ne ks vs in
    let (q, ready', m, next) = read_loop_amp k v r h rest in
    ap finish (e ∙ next)
    ∙ finish-read_loop k' v' more q ready' others
    ∙ ap (assign_all ((k', v') ∷ more)) m

-- Variables whose names are not empty and need no escape, with any bytes in their values, come back
-- as they were: reading the text that encodes them puts each value under its name, in their order.
pub read_http_values-query_text :
    (vars : List (Bytes × Bytes)) (m : StrMap)
    → AreVariables vars
    → read_http_values m (query_text vars) ≡ assign_all vars m
unfolding read_http_values
read_http_values-query_text [] m h = rw (beq_refl [])
read_http_values-query_text ((k, v) ∷ more) m h =
    finish-read_loop k v more (reader m) (inl (refl, refl), refl) h
