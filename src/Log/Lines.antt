-- ===== src/Log/Lines.antt =====
-- src/core/splog.cpp: what `Write` adds to the file of the day.
use evcp.Base.{
  ℕ, zero, suc, ◌+◌, ◌-◌, ◌/◌, ◌%◌, ◌≡◌, ap, ◌∙◌, [], ◌∷◌, ◌++◌, Option, none, some, Bool, false,
  Bytes, codes, length, take, ltb, ◌==◌, if◌then◌else◌, replicate, arith, append_assoc, Bool-cases,
  inl, inr, beq_refl,
}
use evcp.Base.Maps.{at, at-insert}
use evcp.Connection.Headers.{c_str, smallbuf}
use evcp.Connection.Process.{decimal}
use evcp.Request.Chars.{lf}
use evcp.Log.{log_text, IsOneLine, escape_line_ends-IsOneLine}
use evcp.Log.Files.{
  Moment, Logger, Disk, padded, append, line_text, close_day, open_day, put_line, write_text,
  delete_old_logs, write,
}

IsOneLine-append : (xs ys : Bytes) → IsOneLine xs → IsOneLine ys → IsOneLine (xs ++ ys)
IsOneLine-append [] ys h k = k
IsOneLine-append (x ∷ xs) ys (p, (q, h)) k = (p, (q, IsOneLine-append xs ys h k))

zeros-IsOneLine : (n : ℕ) → IsOneLine (replicate n b'0')
zeros-IsOneLine zero = tt
zeros-IsOneLine (suc n) = (omega arith, (omega arith, zeros-IsOneLine n))

decimal-IsOneLine : (width n : ℕ) → IsOneLine (decimal width n)
unfolding decimal
decimal-IsOneLine zero n = tt
decimal-IsOneLine (suc width) n = elim (Bool-cases (ltb n 10)) [
  | inl y ↦ rw y (omega arith, (omega arith, tt))
  | inr k ↦ rw k (
      IsOneLine-append (decimal width (n / 10)) ((b'0' + n % 10) ∷ [])
        (decimal-IsOneLine width (n / 10)) (omega arith, (omega arith, tt)))
]

padded-IsOneLine : (width n : ℕ) → IsOneLine (padded width n)
unfolding padded
padded-IsOneLine width n =
    IsOneLine-append (replicate (width - length (decimal 10 n)) b'0') (decimal 10 n)
      (zeros-IsOneLine (width - length (decimal 10 n))) (decimal-IsOneLine 10 n)

-- What `Write` adds: one line, with its end
abbrev pub AddsLine : Bytes → Bytes → Type 0
AddsLine before after = (line : Bytes) × ((after ≡ before ++ (line ++ lf ∷ [])) × IsOneLine line)

stamp : Moment → ℕ → Bytes
stamp t th_id =
    padded 2 t.hour
    ++ (codes ":"
        ++ (padded 2 t.minute
            ++ (codes ":"
                ++ (padded 2 t.second
                    ++ (codes "."
                        ++ (padded 3 t.millisec
                            ++ (if th_id == 0
                                then codes " "
                                else codes " [ " ++ (padded 6 th_id ++ codes " ] "))))))))

digits-IsOneLine :
    (width n : ℕ) (rest : Bytes) → IsOneLine rest → IsOneLine (padded width n ++ rest)
digits-IsOneLine width n rest h =
    IsOneLine-append (padded width n) rest (padded-IsOneLine width n) h

stamp-IsOneLine : (t : Moment) (th_id : ℕ) → IsOneLine (stamp t th_id)
unfolding stamp
stamp-IsOneLine t th_id = digits-IsOneLine 2 t.hour _ (
  omega arith,
  (
    omega arith,
    digits-IsOneLine 2 t.minute _ (
      omega arith,
      (
        omega arith,
        digits-IsOneLine 2 t.second _
            (omega arith, (omega arith, digits-IsOneLine 3 t.millisec _ thread)),
      ),
    ),
  ),
)
  where
    thread :
        IsOneLine (if th_id == 0 then codes " " else codes " [ " ++ (padded 6 th_id ++ codes " ] "))
    thread = elim (Bool-cases (th_id == 0)) [
      | inl y ↦ rw y (omega arith, (omega arith, tt))
      | inr k ↦ rw k (
          IsOneLine-append (codes " [ ") (padded 6 th_id ++ codes " ] ") (ground arith)
            (digits-IsOneLine 6 th_id (codes " ] ") (ground arith)))
    ]

module _ (d : Disk) (t : Moment) (l : Logger) (f : Bytes) (opened : l.logfile ≡ some f) where
  close_day-same : t.day ≡ l.dom → close_day t l ≡ (false, l)
  unfolding close_day
  close_day-same same = ground arith

  open_day-same : open_day d t l ≡ some l
  unfolding open_day
  open_day-same = ground arith

  put_line-same :
      (st : Bytes) (th_id : ℕ) → put_line t st th_id l ≡ append f (line_text t th_id st) l
  unfolding put_line
  put_line-same st th_id = ground arith

  write-same :
      (st : Bytes) (th_id : ℕ)
      → t.day ≡ l.dom
      → write d t st th_id l ≡ append f (line_text t th_id st) l
  unfolding write write_text
  write-same st th_id same =
      ap (λ (x : Bool × Logger). end_of (text_of x)) (close_day-same same)
      ∙ ap (λ (x : Option Logger). end_of (line_of (false, l) x)) open_day-same
      ∙ put_line-same st th_id
    where
      line_of : Bool × Logger → Option Logger → Bool × Logger
      line_of x o = elim o [ none ↦ (false, x.1) | some q ↦ (x.0, put_line t st th_id q) ]

      text_of : Bool × Logger → Bool × Logger
      text_of x = line_of x (open_day d t x.1)

      end_of : Bool × Logger → Logger
      end_of x = if x.0 then delete_old_logs d t x.1 else x.1

line_text-stamp :
    (t : Moment) (th_id : ℕ) (st : Bytes)
    → line_text t th_id st ≡ (stamp t th_id ++ log_text (c_str st)) ++ lf ∷ []
unfolding line_text stamp
line_text-stamp t th_id st = simp append_assoc

-- `Write` on the day of the file adds one line to it, whatever the text is, and deletes no file.
pub write-AddsLine :
    (d : Disk) (t : Moment) (st : Bytes) (th_id : ℕ) (l : Logger) (f : Bytes)
    → l.logfile ≡ some f
    → t.day ≡ l.dom
    → AddsLine (at f l.files) (at f (write d t st th_id l).files)
      × ((write d t st th_id l).unlinked ≡ l.unlinked)
unfolding log_text
write-AddsLine d t st th_id l f opened same =
    let e = write-same d t l f opened st th_id same in
    let text = line_text t th_id st in
    (
      (
        stamp t th_id ++ log_text (c_str st),
        (
          ap (λ (x : Logger). at f x.files) e
              ∙ at-insert f f (at f l.files ++ text) l.files
              ∙ rw (beq_refl f)
                  (ap (λ (x : Bytes). at f l.files ++ x) (line_text-stamp t th_id st)),
          IsOneLine-append (stamp t th_id) (log_text (c_str st)) (stamp-IsOneLine t th_id)
              (escape_line_ends-IsOneLine (take smallbuf (c_str st))),
        ),
      ),
      ap (λ (x : Logger). x.unlinked) e,
    )
