-- ===== src/Tests/Running.antt =====
-- The counters, the log and the output of programs, at concrete inputs.
use evcp.Base.{ℕ, ◌≡◌, refl, codes, Bool, true, some, [], ◌∷◌}
use evcp.Connection.Process.{decimal}
use evcp.Console.Ips.{Ip, next_ip, ip_text}
use evcp.Log.{escape_line_ends}
use evcp.Program.{run_program, run_all, failed, bytes}
use evcp.Stats.{requests, uptime, collector, upd, get}

two_requests : (upd 9 requests 1 (upd 9 requests 1 (collector 5)).1).0 ≡ 2
unfolding upd collector
two_requests = refl

four_seconds : get 9 uptime (collector 5) ≡ 4
unfolding get collector
four_seconds = refl

one_line : escape_line_ends (codes "a\nb\r") ≡ codes "a\\nb\\r"
unfolding escape_line_ends
one_line = refl

-- A read that fails keeps what has been read, and `result` tells it.
abbrev gives : ℕ → Bool
gives n = true

half_read :
    (run_all gives (bytes (codes "ab") ∷ failed ∷ failed ∷ []) run_program).buf ≡ some (codes "ab")
unfolding run_all
half_read = refl

abbrev last_of_net : Ip
last_of_net = record { a = 10; b = 0; c = 0; d = 255 }

next_net : ip_text (next_ip last_of_net) ≡ codes "10.0.1.0"
unfolding ip_text next_ip decimal
next_net = refl
