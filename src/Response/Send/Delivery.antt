-- ===== src/Response/Send/Delivery.antt =====
-- What reaches the socket.
use evcp.Base.{
  ◌≢◌, ℕ, ◌+◌, ◌-◌, ◌<◌, ◌≤◌, ◌≡◌, refl, sym, ◌∙◌, ap, [], ◌∷◌, ◌++◌, ◌↔◌, List, zero, suc, Bool,
  true, false, Bytes, length, length-append, take, drop, arith, ◌==◌, append-nil, append_assoc,
  length-drop, Option, some, none, ◌⊎◌, inl, inr, Bool-cases,
}
use evcp.Response.{Response}
use evcp.Response.Send
use evcp.Response.Send.{
  written, closed, respond_loop, respond, FileEnd, drains, Source, send_file, fill_loop, wanted,
  take_in, put_in,
}

pub take_all : (xs : Bytes) → take (length xs) xs ≡ xs
take_all [] = refl
take_all (x ∷ xs) = ap (◌∷◌ x) (take_all xs)

take-take : (n m : ℕ) (xs : Bytes) → n ≤ m → take n (take m xs) ≡ take n xs
take-take zero m xs h = refl
take-take (suc n) zero xs h = elim h [ ]
take-take (suc n) (suc m) [] h = refl
take-take (suc n) (suc m) (x ∷ xs) h = ap (◌∷◌ x) (take-take n m xs (omega arith))

take-append-drop : (n : ℕ) (xs : Bytes) → take n xs ++ drop n xs ≡ xs
take-append-drop zero xs = refl
take-append-drop (suc n) [] = refl
take-append-drop (suc n) (x ∷ xs) = ap (◌∷◌ x) (take-append-drop n xs)

append_cancel : (xs : Bytes) {ys zs : Bytes} → xs ++ ys ≡ xs ++ zs → ys ≡ zs
append_cancel [] e = e
append_cancel (x ∷ xs) e = append_cancel xs (cc)

-- Writes that each take something, and `n` bytes together.
abbrev pub Takes : ℕ → List ℕ → Type 0
Takes n [] = n ≡ 0
Takes n (w ∷ ws) = (0 < w) × (w ≤ n) × Takes (n - w) ws

-- The start of the text, for each write once more.
abbrev pub pieces : Bytes → List ℕ → Bytes
pieces text [] = []
pieces text (w ∷ ws) = take w text ++ pieces text ws

respond_loop-pieces :
    (ws : List ℕ) (r : Response) (out : Bytes)
    → r.sent ≤ length r.buf
    → Takes (length r.buf - r.sent) ws
    → r.needrefill ≡ false
    → ((respond_loop ws r out).0 ≡ closed) × ((respond_loop ws r out).2 ≡ out ++ pieces r.buf ws)
unfolding respond_loop
respond_loop-pieces [] r out h t n = (ground arith, ground (arith, append-nil out))
respond_loop-pieces (w ∷ ws) r out h (p, q, t) n =
    let (how, sent) =
      respond_loop-pieces ws (record r { sent = r.sent + w }) (out ++ written r w) (omega arith)
        (let e : length r.buf - r.sent - w ≡ length r.buf - (r.sent + w) = omega arith in rw e at t)
        n in
    let all : out ++ written r w ++ pieces r.buf ws ≡ out ++ take w r.buf ++ pieces r.buf ws =
      ap (λ x. out ++ x ++ pieces r.buf ws) (take-take w (length r.buf - r.sent) r.buf q) in
    (ground arith, ground (arith, append_assoc out (take w r.buf) (pieces r.buf ws)))

-- Whatever the sizes of the writes, when they together take as many bytes as the buffer holds, the
-- connection is closed, and the client has the start of the buffer once for each write.
pub respond-pieces :
    (ws : List ℕ) (r : Response)
    → r.sent ≡ 0
    → Takes (length r.buf) ws
    → r.needrefill ≡ false
    → ((respond ws r).0 ≡ closed) × ((respond ws r).2 ≡ pieces r.buf ws)
unfolding respond
respond-pieces ws r s t n =
    respond_loop-pieces ws r [] (omega arith)
      (let e : length r.buf ≡ length r.buf - r.sent = omega arith in rw e at t) n

-- With two writes the client has what the buffer holds exactly if the bytes at the start, as many
-- as the second write took, are those that it should have sent.
pub respond_in_two :
    (r : Response) (a b : ℕ)
    → r.sent ≡ 0
    → (0 < a) × (0 < b) × (a + b ≡ length r.buf)
    → r.needrefill ≡ false
    → ((respond (a ∷ b ∷ []) r).2 ≡ r.buf) ↔ (take b r.buf ≡ drop a r.buf)
respond_in_two r a b s (p, q, e) n =
    let (_, out) =
      respond-pieces (a ∷ b ∷ []) r s (p, omega arith, (q, omega arith, omega arith)) n in
    let whole = take-append-drop a r.buf in
    (
      λ same. append_cancel (take a r.buf) (
          ap (λ x. take a r.buf ++ x) (sym (append-nil (take b r.buf)))
          ∙ sym out
          ∙ same
          ∙ sym whole),
      λ repeats. out ∙ ap (λ x. take a r.buf ++ x) (append-nil (take b r.buf) ∙ repeats) ∙ whole,
    )

-- The file that is sent: what is in the buffer behind the head, and what is left, make it up.
abbrev pub Carries : Bytes → Bytes → Source → Response → Type 0
Carries head file f r =
    (r.buf ++ f.left ≡ head ++ file) × (f.fread + length f.left ≡ f.fsize) × (length r.buf ≤ r.size)

-- `read` gives no more bytes than it is asked for.
abbrev pub ReadsWithin : List (Option ℕ) → Source → Response → Type 0
ReadsWithin [] f r = Unit
ReadsWithin (none ∷ ss) f r = Unit
ReadsWithin (some s ∷ ss) f r = (s ≤ wanted f r) × ReadsWithin ss (take_in f s) (put_in f r s)

-- At a drain the file is read to its end and no refill is asked for, or the buffer is full and one is.
-- When the loop is to read again, there is room and something is missing, once it has read at all.
abbrev pub Drained : List (Option ℕ) → FileEnd → Source → Response → Type 0
Drained ss drains f r =
    ((f.fread ≡ f.fsize) × (r.needrefill ≡ false))
    ⊎ ((length r.buf ≡ r.size) × (r.needrefill ≡ true))
Drained ss Send.read_error f r = Unit
Drained [] Send.reading f r = Unit
Drained (s ∷ ss) Send.reading f r = 0 < wanted f r

read-Carries :
    (head file : Bytes) (s : ℕ) (f : Source) (r : Response)
    → s ≤ wanted f r
    → Carries head file f r
    → Carries head file (take_in f s) (put_in f r s)
read-Carries head file s f r h (text, size, fits) = (
  append_assoc r.buf (take s f.left) (drop s f.left)
      ∙ ap (λ x. r.buf ++ x) (take-append-drop s f.left)
      ∙ text,
  omega (arith, length-drop s f.left),
  omega (
    arith,
    length-append r.buf (take s f.left),
    ap length (take-append-drop s f.left),
    length-append (take s f.left) (drop s f.left),
    length-drop s f.left,
  ),
)

ReadsWithin-refill :
    (ss : List (Option ℕ)) (f : Source) (r : Response) (b : Bool)
    → ReadsWithin ss f r
    → ReadsWithin ss f (record r { needrefill = b })
ReadsWithin-refill [] f r b h = tt
ReadsWithin-refill (none ∷ ss) f r b h = tt
ReadsWithin-refill (some s ∷ ss) f r b (h, hs) =
    (h, ReadsWithin-refill ss (take_in f s) (put_in f r s) b hs)

ne_of : {n m : ℕ} → (n == m) ≡ false → n ≢ m
ne_of {n} {m} e k = (let f : (m == m) ≡ false = rw k at e in ground arith)

room_left :
    (f : Source) (r : Response)
    → f.fread ≢ f.fsize
    → r.size ≢ length r.buf
    → f.fread + length f.left ≡ f.fsize
    → length r.buf ≤ r.size
    → 0 < wanted f r
room_left f r h k size fits = omega arith

Drained-after :
    (t s : Option ℕ) (ss : List (Option ℕ)) (how : FileEnd) (f : Source) (r : Response)
    → Drained (s ∷ ss) how f r
    → Drained (t ∷ s ∷ ss) how f r
Drained-after t s ss drains f r d = d
Drained-after t s ss Send.read_error f r d = tt
Drained-after t s ss Send.reading f r d = d

-- One `read` behind which the loop goes on
Drained-more :
    (s : Option ℕ) (ss : List (Option ℕ)) (f : Source) (r : Response)
    → 0 < wanted f r
    → (let (how, f', r') = fill_loop ss f r in Drained ss how f' r')
    → (let (how, f', r') = fill_loop ss f r in Drained (s ∷ ss) how f' r')
unfolding fill_loop
Drained-more s [] f r h d = h
Drained-more s (t ∷ ss) f r h d = Drained-after s t ss _ _ _ d

fill_loop-Carries :
    (head file : Bytes) (ss : List (Option ℕ)) (f : Source) (r : Response)
    → r.needrefill ≡ true
    → ReadsWithin ss f r
    → Carries head file f r
    → let (how, f', r') = fill_loop ss f r in Carries head file f' r' × Drained ss how f' r'
unfolding fill_loop
fill_loop-Carries head file [] f r n h c = (c, tt)
fill_loop-Carries head file (none ∷ ss) f r n h c = (c, tt)
fill_loop-Carries head file (some s ∷ ss) f r n (h, hs) c =
    let c' = read-Carries head file s f r h c in
    elim (Bool-cases (f.fread + s == f.fsize)) [
      | inl all ↦ rw all (c', inl (ground arith, refl))
      | inr more ↦ rw more (elim (Bool-cases (r.size == length (r.buf ++ take s f.left))) [
        | inl full ↦ rw full (c', inr (ground arith, n))
        | inr room ↦
            let (c'', d) = fill_loop-Carries head file ss (take_in f s) (put_in f r s) n hs c' in
            let goes_on : 0 < wanted (take_in f s) (put_in f r s) =
              room_left (take_in f s) (put_in f r s) (ne_of more) (ne_of room) c'.1 c'.2 in
            rw room (c'', Drained-more (some s) ss (take_in f s) (put_in f r s) goes_on d)
      ])
    ]

-- While a file as long as `stat` said is sent, and `read` gives no more than it is asked for, nothing of
-- it is lost or doubled between the disk and the buffer: what the buffer held, what has been put
-- behind it and what is left of the file make up the head and the whole file, and the buffer keeps
-- to its size. The loop hands over with the file read to its end and no refill asked for, or with a full
-- buffer and a refill asked for. After one `read` or more, it reads again only when there is room in the
-- buffer and something is missing of the file.
pub send_file-Carries :
    (head file : Bytes) (ss : List (Option ℕ)) (f : Source) (r : Response)
    → ReadsWithin ss f r
    → Carries head file f r
    → let (how, f', r') = send_file ss f r in Carries head file f' r' × Drained ss how f' r'
unfolding send_file
send_file-Carries head file ss f r h c =
    fill_loop-Carries head file ss f (record r { needrefill = true }) refl
      (ReadsWithin-refill ss f r true h) c
