-- ===== src/Console/Containers/Output.antt =====
-- src/modules/mgr/mgr_cts.cpp with src/core/sys.cpp: the list of containers, from the output of `vzlist`.
use evcp.Base.{
  ℕ, ◌≡◌, ◌≢◌, ◌<◌, ◌≤◌, ◌↔◌, ◌⊎◌, inl, inr, refl, sym, ap, ◌∙◌, [], ◌∷◌, ◌++◌, List, Option, none,
  some, Bool, true, Bytes, codes, length, arith,
}
use evcp.Request.Chars.{lf}
use evcp.Console.State
use evcp.Console.State.{Services, Conn, Round, show_page, set_state, doc_start, Next}
use evcp.Console.Programs.{
  Programs, Shell, Turn, again, waits, answers, null_pointer, short_line, ready,
}
use evcp.Console.Containers.{
  if_rows, list_templates, container_create, rows, words_of, page_turn, rows_page, container_row,
  container_list, vzlist,
}
use evcp.Console.Texts.Containers.{containers_head, containers_tail}
use native.Mathlib.Decide.{dec_lt}
use evcp.Program.{RunProgram, run_program, run_all, pieces, concat, output, Fits, run_all-pieces}

container_row-short : (pg : Programs) (i : List Bytes) → length i < 9 → container_row pg i ≡ none
unfolding container_row
container_row-short pg [] h = refl
container_row-short pg (a ∷ []) h = refl
container_row-short pg (a ∷ b ∷ []) h = refl
container_row-short pg (a ∷ b ∷ c ∷ []) h = refl
container_row-short pg (a ∷ b ∷ c ∷ d ∷ []) h = refl
container_row-short pg (a ∷ b ∷ c ∷ d ∷ e ∷ []) h = refl
container_row-short pg (a ∷ b ∷ c ∷ d ∷ e ∷ f ∷ []) h = refl
container_row-short pg (a ∷ b ∷ c ∷ d ∷ e ∷ f ∷ g ∷ []) h = refl
container_row-short pg (a ∷ b ∷ c ∷ d ∷ e ∷ f ∷ g ∷ i ∷ []) h = refl
container_row-short pg (a ∷ b ∷ c ∷ d ∷ e ∷ f ∷ g ∷ i ∷ j ∷ k) h = absurd (omega arith)

container_row-long :
    (pg : Programs) (i : List Bytes) → 9 ≤ length i → (t : Bytes) × (container_row pg i ≡ some t)
unfolding container_row
container_row-long pg [] h = absurd (omega arith)
container_row-long pg (a ∷ []) h = absurd (omega arith)
container_row-long pg (a ∷ b ∷ []) h = absurd (omega arith)
container_row-long pg (a ∷ b ∷ c ∷ []) h = absurd (omega arith)
container_row-long pg (a ∷ b ∷ c ∷ d ∷ []) h = absurd (omega arith)
container_row-long pg (a ∷ b ∷ c ∷ d ∷ e ∷ []) h = absurd (omega arith)
container_row-long pg (a ∷ b ∷ c ∷ d ∷ e ∷ f ∷ []) h = absurd (omega arith)
container_row-long pg (a ∷ b ∷ c ∷ d ∷ e ∷ f ∷ g ∷ []) h = absurd (omega arith)
container_row-long pg (a ∷ b ∷ c ∷ d ∷ e ∷ f ∷ g ∷ i ∷ []) h = absurd (omega arith)
container_row-long pg (a ∷ b ∷ c ∷ d ∷ e ∷ f ∷ g ∷ i ∷ j ∷ k) h = (_, refl)

-- A line has fewer than nine columns.
abbrev pub HasShort : List (List Bytes) → Type 0
HasShort [] = ⊥
HasShort (i ∷ more) = (length i < 9) ⊎ HasShort more

-- The rows of all lines are there, or one of them is short.
data RowsOf (pg : Programs) (ws : List (List Bytes)) : Type 0 where
  broken : HasShort ws → rows (container_row pg) ws ≡ none → RowsOf pg ws
  complete : (HasShort ws → ⊥) → (t : Bytes) → rows (container_row pg) ws ≡ some t → RowsOf pg ws

rows_of : (pg : Programs) (ws : List (List Bytes)) → RowsOf pg ws
unfolding rows
rows_of pg [] = complete (λ h. h) [] refl
rows_of pg (i ∷ more) = with_first (less_or_more (length i)) (rows_of pg more)
  where
    less_or_more : (n : ℕ) → (n < 9) ⊎ (9 ≤ n)
    less_or_more n = elim (dec_lt n 9) [ yes h ↦ inl h | no h ↦ inr (omega arith) ]

    with_first : (length i < 9) ⊎ (9 ≤ length i) → RowsOf pg more → RowsOf pg (i ∷ more)
    with_first (inl h) r = broken (inl h) (rw (container_row-short pg i h) refl)
    with_first (inr h) (broken s e) =
        let (t, k) = container_row-long pg i h in broken (inr s) (rw (k, e) refl)
    with_first (inr h) (complete n u e) =
        let (t, k) = container_row-long pg i h in
        complete (λ s. elim s [ inl l ↦ absurd (omega arith) | inr l ↦ n l ]) (t ++ u)
          (rw (k, e) refl)

page_turn-answers : (sv : Services) (myxml : Bytes) (s : Shell) → page_turn sv myxml s ≢ short_line
unfolding page_turn
page_turn-answers sv myxml s e = turn_of (show_page sv myxml s.conn) e
  where
    turn_of :
        (r : Round)
        → elim r as (λ _. Turn) [
          | State.leave next c ↦ answers next (record s { conn = c })
          | State.cycle c ↦ again (record s { conn = c })
          | State.unfinished ↦ null_pointer
          | State.null_pointer ↦ null_pointer
        ]
          ≡ short_line
        → ⊥
    turn_of (State.leave next c) f = cc
    turn_of (State.cycle c) f = cc
    turn_of State.unfinished f = cc
    turn_of State.null_pointer f = cc

rows_page_iff :
    (sv : Services) (pg : Programs) (head tail : Bytes) (d : List Bytes) (s : Shell)
    → (rows_page sv pg head (container_row pg) tail d s ≡ short_line) ↔ HasShort (words_of pg d)
unfolding rows_page
rows_page_iff sv pg head tail d s = by_rows (rows_of pg (words_of pg d))
  where
    page : Bytes → Turn
    page text = page_turn sv (doc_start ++ (head ++ (text ++ tail))) s

    by_rows :
        RowsOf pg (words_of pg d)
        → (if_rows (rows (container_row pg) (words_of pg d)) page ≡ short_line)
          ↔ HasShort (words_of pg d)
    by_rows (broken h e) = ((λ _. h), (λ _. ap (λ (o : Option Bytes). if_rows o page) e))
    by_rows (complete n t e) = (
      λ f.
          absurd (page_turn-answers sv _ s (sym (ap (λ (o : Option Bytes). if_rows o page) e) ∙ f)),
      λ h. absurd (n h),
    )

-- The connection behind `conn_compile_resp`, with the output freed
abbrev pub printed : Services → Conn → Shell
printed sv c = record { conn = ready sv (codes "text/html") c; rp = none }

container_list-state_1 :
    (sv : Services) (pg : Programs) (c : Conn) (rp : RunProgram)
    → c.hndstate ≡ 1
    → container_list sv pg (record { conn = c; rp = some rp })
      ≡ rows_page sv pg containers_head
          (container_row pg)
          containers_tail
          (sv.explode (output rp.buf) lf)
          (printed sv c)
unfolding container_list
container_list-state_1 sv pg c rp h = rw h refl

-- From the request to the list: if `vzlist` can be started, the handler waits for its output; and when the
-- program has ended, in whatever pieces its output came, the handler reads a column that is not there
-- exactly if one of the lines that all of the output is cut into has fewer than nine columns. It is so if
-- each read gives a byte or more, no more than the buffer has room for, and the one that gives none
-- has room, so that no output is left behind for want of memory.
pub container_list-runs :
    (sv : Services) (pg : Programs) (realloc : ℕ → Bool) (c : Conn) (bs : List Bytes)
    → c.hndstate ≡ 0
    → pg.starts vzlist ≡ true
    → Fits realloc bs run_program
    → let started : Shell = record { conn = set_state 1 c; rp = some run_program } in
      let ended : Shell = record started { rp = some (run_all realloc (pieces bs) run_program) } in
      (container_list sv pg (record { conn = c; rp = none }) ≡ waits started)
      × ((container_list sv pg ended ≡ short_line)
          ↔ HasShort (words_of pg (sv.explode (concat bs) lf)))
container_list-runs sv pg realloc c bs h starts fits =
    let c1 = set_state 1 c in
    let rp = run_all realloc (pieces bs) run_program in
    let (all, _) = run_all-pieces realloc bs run_program fits refl in
    let shown =
      container_list-state_1 sv pg c1 rp refl
      ∙ ap
          (λ (b : Bytes).
            rows_page sv pg containers_head (container_row pg) containers_tail (sv.explode b lf)
              (printed sv c1))
          all in
    let (short, long) =
      rows_page_iff sv pg containers_head containers_tail (sv.explode (concat bs) lf)
        (printed sv c1) in
    (
      unfold container_list in rw (h, starts) refl,
      ((λ e. short (sym shown ∙ e)), (λ k. shown ∙ long k)),
    )

-- The form of a new container is made before the program that lists the templates has given anything.
container_create-blind :
    (sv : Services) (pg : Programs) (c : Conn) (o : Option RunProgram)
    → c.hndstate ≡ 0
    → pg.starts list_templates ≡ true
    → container_create sv pg (record { conn = c; rp = o })
      ≡ container_create sv pg (record { conn = set_state 1 c; rp = some run_program })
unfolding container_create
container_create-blind sv pg c o h starts = rw (h, starts) refl
