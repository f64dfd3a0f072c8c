-- ===== src/Response/Layout.antt =====
-- What an answer's head looks like, and that the buffer holds it.
use evcp.Base.{
  ℕ, ◌+◌, ◌≤◌, ◌≡◌, refl, sym, ap, ◌∙◌, List, [], ◌∷◌, ◌++◌, Bool, true, false, Bytes, length,
  length-append, codes, append-nil, append_assoc, arith, Bool-cases, inl, inr, if◌then◌else◌,
}
use evcp.Base.Maps.{StrMap}
use evcp.Connection.Headers.{c_str}
use evcp.Response.Status.{std_resp}
use evcp.Response.{Response, fill_resp, fill_all, add_charset, head_texts, compile_resp}

-- The buffer is as large as what it holds.
abbrev pub Fits : Response → Type 0
Fits r = length r.buf ≤ r.size

-- Whatever the allocator does, a text is put behind what there was, whole or not at all, the result
-- says which, and the buffer stays within its allocation.
fill_resp-Fits :
    (realloc : ℕ → Bool) (text : Bytes) (r : Response)
    → Fits r
    → let (done, r') = fill_resp realloc text r in
      Fits r' × (r'.buf ≡ (if done then r.buf ++ text else r.buf))
unfolding fill_resp
fill_resp-Fits realloc text r h = ground (arith, length-append r.buf text)

flat : List Bytes → Bytes
flat [] = []
flat (t ∷ ts) = t ++ flat ts

module _ (realloc : ℕ → Bool) (grants : (n : ℕ) → realloc n ≡ true) where
  fill_resp-buf : (text : Bytes) (r : Response) → (fill_resp realloc text r).1.buf ≡ r.buf ++ text
  unfolding fill_resp
  fill_resp-buf text r = ground (arith, grants (length r.buf + length text + 1))

  fill_all-buf : (ts : List Bytes) (r : Response) → (fill_all realloc ts r).buf ≡ r.buf ++ flat ts
  unfolding flat
  fill_all-buf [] r = sym (append-nil r.buf)
  fill_all-buf (t ∷ ts) r =
      fill_all-buf ts (fill_resp realloc t r).1
      ∙ ap (λ b. b ++ flat ts) (fill_resp-buf t r)
      ∙ append_assoc r.buf t (flat ts)

-- The headers of a map, a line each, and the empty line.
abbrev pub head_lines : StrMap → Bytes
head_lines [] = codes "\r\n"
head_lines ((k, v) ∷ m) = c_str k ++ (codes ": " ++ (c_str v ++ (codes "\r\n" ++ head_lines m)))

flat-head_texts : (m : StrMap) → flat (head_texts m) ≡ head_lines m
unfolding flat
flat-head_texts [] = refl
flat-head_texts ((k, v) ∷ m) =
    ap (λ b. c_str k ++ (codes ": " ++ (c_str v ++ (codes "\r\n" ++ b)))) (flat-head_texts m)

-- With memory at hand, the head is the status line, a line for each header in the order of their
-- names, and an empty line, behind what the buffer held.
pub compile_resp-head :
    (realloc : ℕ → Bool)
    → ((n : ℕ) → realloc n ≡ true)
    → (r : Response) → r.h_sent ≡ false
    → (compile_resp realloc r).buf
      ≡ r.buf ++ (std_resp r.status ++ head_lines (add_charset r.h_out))
unfolding compile_resp flat
compile_resp-head realloc grants r h =
    let m = add_charset r.h_out in
    ground (
      arith,
      fill_all-buf realloc grants (std_resp r.status ∷ head_texts m) (record r { h_out = m }),
      flat-head_texts m,
    )

fill_all-sent :
    (realloc : ℕ → Bool) (ts : List Bytes) (r : Response) → (fill_all realloc ts r).sent ≡ r.sent
unfolding fill_resp
fill_all-sent realloc [] r = refl
fill_all-sent realloc (t ∷ ts) r =
    let kept : (fill_resp realloc t r).1.sent ≡ r.sent = ground arith in
    fill_all-sent realloc ts (fill_resp realloc t r).1 ∙ kept

-- Nothing of the head counts as sent yet.
pub compile_resp-sent : (realloc : ℕ → Bool) (r : Response) → (compile_resp realloc r).sent ≡ r.sent
unfolding compile_resp
compile_resp-sent realloc r =
    let m = add_charset r.h_out in
    ground
      (arith, fill_all-sent realloc (std_resp r.status ∷ head_texts m) (record r { h_out = m }))

-- A second call changes nothing: the head is sent once.
pub compile_resp_once :
    (realloc : ℕ → Bool) (r : Response)
    → compile_resp realloc (compile_resp realloc r) ≡ compile_resp realloc r
unfolding compile_resp
compile_resp_once realloc r = elim (Bool-cases r.h_sent) [
  | inl sent ↦ ground arith
  | inr fresh ↦ ground arith
]

fill_all-Fits :
    (realloc : ℕ → Bool) (ts : List Bytes) (r : Response) → Fits r → Fits (fill_all realloc ts r)
fill_all-Fits realloc [] r h = h
fill_all-Fits realloc (t ∷ ts) r h =
    fill_all-Fits realloc ts (fill_resp realloc t r).1 (fill_resp-Fits realloc t r h).0

-- The head is within what is allocated, and counts as made.
pub compile_resp-Fits :
    (realloc : ℕ → Bool) (r : Response)
    → Fits r
    → Fits (compile_resp realloc r) × ((compile_resp realloc r).h_sent ≡ true)
unfolding compile_resp
compile_resp-Fits realloc r h =
    let m = add_charset r.h_out in
    let made = fill_all realloc (std_resp r.status ∷ head_texts m) (record r { h_out = m }) in
    let fits : Fits made =
      fill_all-Fits realloc (std_resp r.status ∷ head_texts m) (record r { h_out = m }) h in
    chosen made fits r.h_sent refl
  where
    chosen :
        (q : Response)
        → Fits q
        → (b : Bool) → r.h_sent ≡ b
        → Fits (if b then r else record q { h_sent = true })
          × ((if b then r else record q { h_sent = true }).h_sent ≡ true)
    chosen q fits true e = (h, e)
    chosen q fits false e = (fits, refl)
