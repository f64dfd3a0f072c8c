-- ===== src/Config/Lines.antt =====
-- The settings that a file's lines give.
use evcp.Base.{
  length, length-append, ◌-◌, ◌<◌, ◌≤◌, sym, ℕ, ◌≡◌, ◌≢◌, refl, ◌∙◌, ap, [], ◌∷◌, ◌++◌, List, Bool,
  true, false, Bytes, ◌==◌, if◌then◌else◌, beq, append_assoc, append-nil, arith,
}
use evcp.Base.Maps.{StrMap, insert, at-insert}
use evcp.Config.{
  State, reading_directive, look_for_value, reading_value, Reader, on, ends, step_in, line_loop,
  line_reader, load_line, load_lines, is_graphic, cs, fgets_pieces, load_file,
}

-- Bytes that a key or a value can have: not blank, and no '#' or '"'.
abbrev pub IsWord : Bytes → Type 0
IsWord [] = Unit
IsWord (c ∷ cs) = (is_graphic c ≡ true) × (c ≢ b'#') × (c ≢ b'"') × IsWord cs

-- A setting: a key of one byte at least, and a value.
pub record Setting : Type 0 where
  pub first : ℕ
  pub others : Bytes
  pub val : Bytes
  pub quoted : Bool

abbrev pub key : Setting → Bytes
key s = s.first ∷ s.others

abbrev pub IsSetting : Setting → Type 0
IsSetting s = IsWord (key s) × IsWord s.val

-- `KEY value` or `KEY "value"`, and the line feed
abbrev pub setting_text : Setting → Bytes
setting_text s =
    key s ++ b' ' ∷ (if s.quoted then b'"' ∷ (s.val ++ b'"' ∷ b'\n' ∷ []) else s.val ++ b'\n' ∷ [])

abbrev pub AreSettings : List Setting → Type 0
AreSettings [] = Unit
AreSettings (s ∷ ss) = (IsSetting s × (length (setting_text s) ≤ 10238)) × AreSettings ss

abbrev pub setting_texts : List Setting → List Bytes
setting_texts [] = []
setting_texts (s ∷ ss) = setting_text s ∷ setting_texts ss

-- The value of the last of the settings that has a key, or what there was.
abbrev pub setting_of : Bytes → List Setting → Bytes → Bytes
setting_of k [] before = before
setting_of k (s ∷ ss) before = setting_of k ss (if beq (key s) k then s.val else before)

abbrev reading : State → Bytes → Bytes → Bool → Reader
reading s k v q = record { state = s; k = k; v = v; inq = q }

line_loop-on :
    (r q : Reader) (c : ℕ) (cs : Bytes)
    → (c == 0) ≡ false
    → step_in r.state r c ≡ on q
    → line_loop r (c ∷ cs) ≡ line_loop q cs
unfolding line_loop
line_loop-on r q c cs z e = rw (line_loop, e, z) refl

line_loop-ends :
    (r q : Reader) (c : ℕ) (cs : Bytes)
    → (c == 0) ≡ false
    → step_in r.state r c ≡ ends q
    → line_loop r (c ∷ cs) ≡ q
unfolding line_loop
line_loop-ends r q c cs z e = rw (line_loop, e, z) refl

line_loop-key :
    (xs k : Bytes) (rest : Bytes)
    → IsWord xs
    → line_loop (reading reading_directive k [] false) (xs ++ b' ' ∷ rest)
      ≡ line_loop (reading look_for_value (k ++ xs) [] false) rest
line_loop-key [] k rest _ =
    line_loop-on (reading reading_directive k [] false) (reading look_for_value k [] false) b' '
      rest refl (unfold step_in in refl)
    ∙ rw append-nil refl
line_loop-key (c ∷ cs) k rest (g, a, b, h) =
    line_loop-on (reading reading_directive k [] false)
      (reading reading_directive (k ++ c ∷ []) [] false) c (cs ++ b' ' ∷ rest) (ground arith)
      (unfold step_in in ground arith)
    ∙ line_loop-key cs (k ++ c ∷ []) rest h
    ∙ rw append_assoc refl

line_loop-val :
    (xs k v : Bytes) (q : Bool) (rest : Bytes)
    → IsWord xs
    → line_loop (reading reading_value k v q) (xs ++ rest)
      ≡ line_loop (reading reading_value k (v ++ xs) q) rest
line_loop-val [] k v q rest _ = rw append-nil refl
line_loop-val (c ∷ cs) k v q rest (g, a, b, h) =
    line_loop-on (reading reading_value k v q) (reading reading_value k (v ++ c ∷ []) q) c
      (cs ++ rest) (ground arith) (unfold step_in in ground arith)
    ∙ line_loop-val cs k (v ++ c ∷ []) q rest h
    ∙ rw append_assoc refl

-- The state from which a value is looked for behaves, at a byte that is not blank, as the state that
-- reads it.
line_loop-bare :
    (xs k : Bytes)
    → IsWord xs
    → (s : State) × (line_loop (reading look_for_value k [] false) (xs ++ b'\n' ∷ [])
        ≡ reading s k xs false)
line_loop-bare [] k _ = (
  look_for_value,
  line_loop-on (reading look_for_value k [] false) (reading look_for_value k [] false) b'\n' [] refl
        (unfold step_in in refl)
      ∙ (unfold line_loop in refl),
)
line_loop-bare (c ∷ cs) k (g, a, b, h) = (
  reading_value,
  line_loop-on (reading look_for_value k [] false) (reading reading_value k (c ∷ []) false) c
        (cs ++ b'\n' ∷ []) (ground arith) (unfold step_in in ground arith)
      ∙ line_loop-val cs k (c ∷ []) false (b'\n' ∷ []) h
      ∙ line_loop-ends (reading reading_value k (c ∷ cs) false)
          (reading reading_value k (c ∷ cs) false) b'\n' [] refl (unfold step_in in refl),
)

line_loop-quoted :
    (xs k : Bytes)
    → IsWord xs
    → line_loop (reading look_for_value k [] false) (b'"' ∷ (xs ++ b'"' ∷ b'\n' ∷ []))
      ≡ reading reading_value k xs false
line_loop-quoted xs k h =
    line_loop-on (reading look_for_value k [] false) (reading reading_value k [] true) b'"'
      (xs ++ b'"' ∷ b'\n' ∷ []) refl (unfold step_in in refl)
    ∙ line_loop-val xs k [] true (b'"' ∷ b'\n' ∷ []) h
    ∙ line_loop-ends (reading reading_value k xs true) (reading reading_value k xs false) b'"'
        (b'\n' ∷ []) refl (unfold step_in in refl)

line_loop-tail :
    (q : Bool) (xs k : Bytes)
    → IsWord xs
    → (s : State) × (line_loop
          (reading look_for_value k [] false)
          (if q then b'"' ∷ (xs ++ b'"' ∷ b'\n' ∷ []) else xs ++ b'\n' ∷ [])
        ≡ reading s k xs false)
line_loop-tail true xs k h = (reading_value, line_loop-quoted xs k h)
line_loop-tail false xs k h = line_loop-bare xs k h

load_line-setting :
    (m : StrMap) (s : Setting) → IsSetting s → load_line m (setting_text s) ≡ insert (key s) s.val m
unfolding load_line
load_line-setting m s ((g, a, b, names), values) =
    let (st, e) = line_loop-tail (s.quoted) (s.val) (key s) values in
    let f : line_loop line_reader (setting_text s) ≡ reading st (key s) (s.val) false =
      line_loop-on line_reader (reading reading_directive (s.first ∷ []) [] false) (s.first)
        (s.others
          ++ b' ' ∷ (if s.quoted then b'"' ∷ (s.val ++ b'"' ∷ b'\n' ∷ []) else s.val ++ b'\n' ∷ []))
        (ground arith) (unfold step_in in ground arith)
      ∙ line_loop-key (s.others) (s.first ∷ [])
          (if s.quoted then b'"' ∷ (s.val ++ b'"' ∷ b'\n' ∷ []) else s.val ++ b'\n' ∷ []) names
      ∙ e in
    rw (load_line, f) (unfold beq in refl)

load_lines-settings :
    (m : StrMap) (ss : List Setting) (k : Bytes)
    → AreSettings ss
    → cs k (load_lines m (setting_texts ss)) ≡ setting_of k ss (cs k m)
unfolding load_lines cs
load_lines-settings m [] k _ = refl
load_lines-settings m (s ∷ ss) k (h, hs) =
    rw (load_lines, load_line-setting m s h.0)
      (load_lines-settings (insert (key s) (s.val) m) ss k hs
        ∙ ap (setting_of k ss) (at-insert (key s) k (s.val) m))

-- A line without its line feed
abbrev NoLineFeed : Bytes → Type 0
NoLineFeed [] = Unit
NoLineFeed (c ∷ cs) = (c ≢ b'\n') × NoLineFeed cs

NoLineFeed-append : (xs ys : Bytes) → NoLineFeed xs → NoLineFeed ys → NoLineFeed (xs ++ ys)
NoLineFeed-append [] ys h k = k
NoLineFeed-append (x ∷ xs) ys (n, h) k = (n, NoLineFeed-append xs ys h k)

word-NoLineFeed : (xs : Bytes) → IsWord xs → NoLineFeed xs
word-NoLineFeed [] h = tt
word-NoLineFeed (c ∷ cs) (g, a, b, h) =
    ((λ e. let f : is_graphic b'\n' ≡ true = rw e at g in cc), word-NoLineFeed cs h)

abbrev body : Setting → Bytes
body s = key s ++ b' ' ∷ (if s.quoted then b'"' ∷ (s.val ++ b'"' ∷ []) else s.val)

setting_text-body : (s : Setting) → setting_text s ≡ body s ++ b'\n' ∷ []
setting_text-body s =
    ap (λ (x : Bytes). key s ++ b' ' ∷ x) (ended s.quoted)
    ∙ sym (append_assoc (key s) (b' ' ∷ unended s.quoted) (b'\n' ∷ []))
  where
    unended : Bool → Bytes
    unended b = if b then b'"' ∷ (s.val ++ b'"' ∷ []) else s.val

    ended :
        (b : Bool)
        → (if b then b'"' ∷ (s.val ++ b'"' ∷ b'\n' ∷ []) else s.val ++ b'\n' ∷ [])
          ≡ unended b ++ b'\n' ∷ []
    ended true = ap (λ (x : Bytes). b'"' ∷ x) (sym (append_assoc s.val (b'"' ∷ []) (b'\n' ∷ [])))
    ended false = refl

body-NoLineFeed : (s : Setting) → IsWord (key s) → IsWord s.val → NoLineFeed (body s)
body-NoLineFeed s h k =
    NoLineFeed-append (key s) _ (word-NoLineFeed (key s) h) (omega arith, ended s.quoted)
  where
    ended : (b : Bool) → NoLineFeed (if b then b'"' ∷ (s.val ++ b'"' ∷ []) else s.val)
    ended true = (
      omega arith,
      NoLineFeed-append s.val (b'"' ∷ []) (word-NoLineFeed s.val k) (omega arith, tt),
    )
    ended false = word-NoLineFeed s.val k

-- A line that fits is one piece.
fgets_pieces-line :
    (xs piece rest : Bytes) (room : ℕ)
    → NoLineFeed xs
    → length xs < room
    → fgets_pieces room piece (xs ++ b'\n' ∷ rest)
      ≡ (piece ++ (xs ++ b'\n' ∷ [])) ∷ fgets_pieces 10238 [] rest
unfolding fgets_pieces
fgets_pieces-line [] piece rest room h k = refl
fgets_pieces-line (x ∷ xs) piece rest room (n, h) k =
    let other : (x == b'\n') ≡ false = ground arith in
    let room_left : (room == 1) ≡ false = ground arith in
    rw (other, room_left)
      (fgets_pieces-line xs (piece ++ x ∷ []) rest (room - 1) h (omega arith)
        ∙ ap (λ (p : Bytes). p ∷ fgets_pieces 10238 [] rest)
            (append_assoc piece (x ∷ []) (xs ++ b'\n' ∷ [])))

-- The file with these settings, a line each
abbrev pub file_text : List Setting → Bytes
file_text [] = []
file_text (s ∷ ss) = setting_text s ++ file_text ss

fgets_pieces-settings :
    (ss : List Setting) → AreSettings ss → fgets_pieces 10238 [] (file_text ss) ≡ setting_texts ss
unfolding fgets_pieces
fgets_pieces-settings [] h = refl
fgets_pieces-settings (s ∷ ss) ((h, k), hs) =
    let e = setting_text-body s in
    let fits : length (body s) < 10238 =
      omega (arith, k, ap length e, length-append (body s) (b'\n' ∷ [])) in
    ap (fgets_pieces 10238 [])
      (ap (λ (x : Bytes). x ++ file_text ss) e ∙ append_assoc (body s) (b'\n' ∷ []) (file_text ss))
    ∙ fgets_pieces-line (body s) [] (file_text ss) 10238 (body-NoLineFeed s h.0 h.1) fits
    ∙ ap (λ (x : Bytes). x ∷ fgets_pieces 10238 [] (file_text ss)) (sym e)
    ∙ ap (λ (x : List Bytes). setting_text s ∷ x) (fgets_pieces-settings ss hs)

-- After a file whose lines each have a key and a value, bare or in quotes, that have no blanks, '#' or
-- '"' in them, and are no longer than 10238 bytes with their line feed, a key has the value of the last
-- line that names it, and the value it had before (a default) where no line does.
pub cs-load_file :
    (m : StrMap) (ss : List Setting) (k : Bytes)
    → AreSettings ss
    → cs k (load_file m (file_text ss)) ≡ setting_of k ss (cs k m)
unfolding load_file
cs-load_file m ss k h =
    ap (λ (x : List Bytes). cs k (load_lines m x)) (fgets_pieces-settings ss h)
    ∙ load_lines-settings m ss k h
