-- ===== src/Log/Old.antt =====
-- src/core/splog.cpp: which files `DeleteOldLogs` deletes.
use evcp.Base.{
  ℕ, zero, suc, ◌+◌, ◌-◌, ◌≡◌, refl, sym, ap, ◌∙◌, [], ◌∷◌, ◌++◌, List, Option, none, some, Bool,
  true, false, Bytes, codes, drop, ltb, if◌then◌else◌, arith, append_assoc, append-nil, Bool-cases,
  inl, inr,
}
use evcp.Log.Files.{
  Moment, Logger, Disk, close_day, open_day, put_line, write_text, unlink_name, rep, delete_loop,
  delete_old_logs,
}

-- The names that `unlink` succeeds on
abbrev pub removable : (Bytes → Bool) → List Bytes → List Bytes
removable unlinks [] = []
removable unlinks (n ∷ ns) = if unlinks n then n ∷ removable unlinks ns else removable unlinks ns

close_day-unlinked : (t : Moment) (l : Logger) → (close_day t l).1.unlinked ≡ l.unlinked
unfolding close_day
close_day-unlinked t l = ground arith

open_day-unlinked :
    (d : Disk) (t : Moment) (l o : Logger) → open_day d t l ≡ some o → o.unlinked ≡ l.unlinked
unfolding open_day
open_day-unlinked d t l o e = ground arith

put_line-unlinked :
    (t : Moment) (st : Bytes) (th : ℕ) (l : Logger) → (put_line t st th l).unlinked ≡ l.unlinked
unfolding put_line
put_line-unlinked t st th l = ground arith

-- Writing a line deletes nothing by itself.
write_text-unlinked :
    (d : Disk) (t : Moment) (st : Bytes) (th : ℕ) (l : Logger)
    → (write_text d t st th l).1.unlinked ≡ l.unlinked
unfolding write_text
write_text-unlinked d t st th l = opened (open_day d t (close_day t l).1) refl
  where
    opened :
        (o : Option Logger)
        → open_day d t (close_day t l).1 ≡ o
        → (elim o as (λ _. Bool × Logger) [
          | none ↦ (false, (close_day t l).1)
          | some q ↦ ((close_day t l).0, put_line t st th q)
        ]).1.unlinked
          ≡ l.unlinked
    opened none e = close_day-unlinked t l
    opened (some q) e =
        put_line-unlinked t st th q
        ∙ open_day-unlinked d t (close_day t l).1 q e
        ∙ close_day-unlinked t l

unlink_name-unlinked :
    (d : Disk) (t : Moment) (n : Bytes) (l : Logger)
    → (unlink_name d t n l).unlinked ≡ l.unlinked ++ removable d.unlinks (n ∷ [])
unlink_name-unlinked d t n l = elim (Bool-cases (d.unlinks n)) [
  | inl y ↦ rw y (ap (λ (x : List Bytes). x ++ n ∷ []) (write_text-unlinked d t n 0 l))
  | inr k ↦
      rw (k, append-nil l.unlinked)
        (write_text-unlinked d t (codes "failed") 0 (rep d t n l) ∙ write_text-unlinked d t n 0 l)
]

drop-nil : (k : ℕ) → drop {A = Bytes} k [] ≡ []
drop-nil zero = refl
drop-nil (suc k) = refl

removable-append :
    (unlinks : Bytes → Bool) (n : Bytes) (ns : List Bytes)
    → removable unlinks (n ∷ []) ++ removable unlinks ns ≡ removable unlinks (n ∷ ns)
removable-append unlinks n ns = elim (Bool-cases (unlinks n)) [
  | inl y ↦ rw y refl
  | inr k ↦ rw k refl
]

chosen : {b : Bool} {x : Logger} (y : Logger) → b ≡ true → (if b then x else y) ≡ x
chosen y e = rw e refl

passed_over : {b : Bool} {y : Logger} (x : Logger) → b ≡ false → (if b then x else y) ≡ y
passed_over x e = rw e refl

delete_loop-unlinked :
    (d : Disk) (t : Moment) (i : ℕ) (names : List Bytes) (l : Logger)
    → (delete_loop d t i names l).unlinked
      ≡ l.unlinked ++ removable d.unlinks (drop (d.logs_num - i) names)
unfolding delete_loop
delete_loop-unlinked d t i [] l = sym (
    ap (λ (x : List Bytes). l.unlinked ++ removable d.unlinks x) (drop-nil (d.logs_num - i))
    ∙ append-nil l.unlinked)
delete_loop-unlinked d t i (n ∷ names) l = elim (Bool-cases (ltb d.logs_num (i + 1))) [
  | inl past ↦
      let none_left : d.logs_num - i ≡ 0 = ground arith in
      let still_none : d.logs_num - (i + 1) ≡ 0 = ground arith in
      ap after (chosen l past)
      ∙ delete_loop-unlinked d t (i + 1) names (unlink_name d t n l)
      ∙ ap (λ k. (unlink_name d t n l).unlinked ++ removable d.unlinks (drop k names)) still_none
      ∙ ap (λ (x : List Bytes). x ++ removable d.unlinks names) (unlink_name-unlinked d t n l)
      ∙ append_assoc l.unlinked (removable d.unlinks (n ∷ [])) (removable d.unlinks names)
      ∙ ap (λ (x : List Bytes). l.unlinked ++ x) (removable-append d.unlinks n names)
      ∙ ap left (sym none_left)
  | inr before ↦
      let one_more : d.logs_num - i ≡ suc (d.logs_num - (i + 1)) = ground arith in
      ap after (passed_over (unlink_name d t n l) before)
      ∙ delete_loop-unlinked d t (i + 1) names l
      ∙ ap left (sym one_more)
]
  where
    after : Logger → List Bytes
    after x = (delete_loop d t (i + 1) names x).unlinked

    left : ℕ → List Bytes
    left k = l.unlinked ++ removable d.unlinks (drop k (n ∷ names))

-- `DeleteOldLogs` deletes the files that `ls` names behind the first `DEFAULT_LOGSNUM`, in their order, as far
-- as `unlink` lets it, and no other.
pub delete_old_logs-unlinked :
    (d : Disk) (t : Moment) (l : Logger)
    → (delete_old_logs d t l).unlinked
      ≡ l.unlinked ++ removable d.unlinks (drop d.logs_num d.listing)
unfolding delete_old_logs
delete_old_logs-unlinked d t l =
    let all : d.logs_num - 0 ≡ d.logs_num = omega arith in
    write_text-unlinked d t (codes "LOGGER: Done deleting old logs") 0 _
    ∙ delete_loop-unlinked d t 0 d.listing (rep d t (codes "LOGGER: Start deleting old logs") l)
    ∙ ap
        (λ k.
          (rep d t (codes "LOGGER: Start deleting old logs") l).unlinked
          ++ removable d.unlinks (drop k d.listing))
        all
    ∙ ap (λ (x : List Bytes). x ++ removable d.unlinks (drop d.logs_num d.listing))
        (write_text-unlinked d t (codes "LOGGER: Start deleting old logs") 0 l)
