-- ===== src/Log/Files.antt =====
-- src/core/splog.cpp: the files of the log, one for each day (`LoggerClass`).
use evcp.Base.{
  ℕ, ◌+◌, ◌-◌, [], ◌∷◌, ◌++◌, List, Option, none, some, Bool, true, false, Bytes, codes, length,
  take, ltb, ◌==◌, if◌then◌else◌, replicate,
}
use evcp.Base.Maps.{StrMap, insert, at}
use evcp.Connection.Headers.{c_str}
use evcp.Connection.Process.{decimal}
use evcp.Request.Chars.{lf}
use evcp.Log.{log_text}

-- `tm` and the milliseconds, with `tm_year` and `tm_mon` as they are printed
pub record Moment : Type 0 where
  pub year : ℕ
  pub month : ℕ
  pub day : ℕ
  pub hour : ℕ
  pub minute : ℕ
  pub second : ℕ
  pub millisec : ℕ

-- `LoggerClass` with `dom`, what the files hold, and those that have been unlinked, the first one first
pub record Logger : Type 0 where
  pub logfile : Option Bytes
  pub dom : ℕ
  pub files : StrMap
  pub unlinked : List Bytes

-- The settings `PATH_OWNROOT` and `DEFAULT_LOGSNUM`, whether `fopen` and `unlink` succeed on a name,
-- and what `ls -1Ar` prints, line by line
pub record Disk : Type 0 where
  pub own_root : Bytes
  pub logs_num : ℕ
  pub opens : Bytes → Bool
  pub unlinks : Bytes → Bool
  pub listing : List Bytes

-- `%.<width>d`
unfoldable pub padded : ℕ → ℕ → Bytes
unfolding decimal
padded width n = let text = decimal 10 n in replicate (width - length text) b'0' ++ text

-- `snprintf(fnameb,300,"%s/log/%d-%.2d-%.2d.log",…)`
unfoldable pub file_name : Disk → Moment → Bytes
unfolding padded decimal
file_name d t = take 299 (
    c_str d.own_root
    ++ (codes "/log/"
        ++ (decimal 10 t.year
            ++ (codes "-"
                ++ (padded 2 t.month ++ (codes "-" ++ (padded 2 t.day ++ codes ".log")))))))

-- `fprintf(f, …)` on a file that is open for appending
abbrev pub append : Bytes → Bytes → Logger → Logger
append f text l = record l { files = insert f (at f l.files ++ text) l.files }

-- "%.2d:%.2d:%.2d.%.3d [ %.6d ] %s\n", the number only if it is not 0
unfoldable pub line_text : Moment → ℕ → Bytes → Bytes
unfolding padded log_text
line_text t th_id st =
    padded 2 t.hour
    ++ (codes ":"
        ++ (padded 2 t.minute
            ++ (codes ":"
                ++ (padded 2 t.second
                    ++ (codes "."
                        ++ (padded 3 t.millisec
                            ++ ((if th_id == 0
                                  then codes " "
                                  else codes " [ " ++ (padded 6 th_id ++ codes " ] "))
                                ++ (log_text (c_str st) ++ lf ∷ []))))))))

-- `if(cdom != dom && logfile != NULL)`: the end of the day's file
unfoldable pub close_day : Moment → Logger → Bool × Logger
close_day t l = elim l.logfile [
  | none ↦ (false, l)
  | some f ↦
      if t.day == l.dom
      then (false, l)
      else (true, record (append f (codes "*END*\n") l) { logfile = none })
]

-- `if(logfile==NULL)`: the file of the day; `none` if it cannot be opened
unfoldable pub open_day : Disk → Moment → Logger → Option Logger
unfolding file_name
open_day d t l = elim l.logfile [
  | some f ↦ some l
  | none ↦
      let f = file_name d t in
      if d.opens f
      then some (record (append f (codes "\n") l) { logfile = some f; dom = t.day })
      else none
]

-- The line itself
unfoldable pub put_line : Moment → Bytes → ℕ → Logger → Logger
unfolding line_text
put_line t st th_id l = elim l.logfile [ none ↦ l | some f ↦ append f (line_text t th_id st) l ]

-- `Write`, up to the deletion, and whether that follows
unfoldable pub write_text : Disk → Moment → Bytes → ℕ → Logger → Bool × Logger
unfolding close_day open_day put_line
write_text d t st th_id l =
    let (ended, l') = close_day t l in
    elim (open_day d t l') [
      | none ↦ (false, l')
      | some opened ↦ (ended, put_line t st th_id opened)
    ]

-- `rep(st)` within the deletion, at the moment of the call that began it, so that no day ends in it
abbrev pub rep : Disk → Moment → Bytes → Logger → Logger
rep d t st l = (write_text d t st 0 l).1

-- The line that `fgets` gives, without its end
abbrev pub unlink_name : Disk → Moment → Bytes → Logger → Logger
unlink_name d t name l =
    let told = rep d t name l in
    if d.unlinks name
    then record told { unlinked = told.unlinked ++ name ∷ [] }
    else rep d t (codes "failed") told

-- `while(fgets(…))`; `logiter` counts the lines.
unfoldable pub delete_loop : Disk → Moment → ℕ → List Bytes → Logger → Logger
unfolding write_text
delete_loop d t logiter [] l = l
delete_loop d t logiter (name ∷ names) l =
    delete_loop d t (logiter + 1) names
      (if ltb d.logs_num (logiter + 1) then unlink_name d t name l else l)

-- `DeleteOldLogs`, where `popen` succeeds
unfoldable pub delete_old_logs : Disk → Moment → Logger → Logger
unfolding delete_loop write_text
delete_old_logs d t l =
    rep d t (codes "LOGGER: Done deleting old logs")
      (delete_loop d t 0 d.listing (rep d t (codes "LOGGER: Start deleting old logs") l))

-- `Write`
unfoldable pub write : Disk → Moment → Bytes → ℕ → Logger → Logger
unfolding write_text delete_old_logs
write d t st th_id l =
    let (ended, l') = write_text d t st th_id l in if ended then delete_old_logs d t l' else l'

-- `Reopen`
unfoldable pub reopen : Disk → Moment → Logger → Logger
unfolding write delete_old_logs
reopen d t l =
    delete_old_logs d t (write d t (codes "*** Log reopened!") 0 (record l { logfile = none }))
