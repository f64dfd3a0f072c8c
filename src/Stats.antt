-- ===== src/Stats.antt =====
-- src/core/sp_stats.cpp: the counters of the server.
use evcp.Base.{ℕ, ◌+◌, ◌-◌, ◌%◌, ◌^◌, ◌≡◌, ◌≢◌, [], ◌∷◌, ◌++◌, List, Bytes, codes, refl}
use evcp.Connection.Process.{int_text}

-- `StatTokens`
pub data StatToken : Type 0 where
  bytes_sent bytes_received requests logins uptime db_queries login_failures connections : StatToken

-- `STMap`, of which only the values are read, and `launchtime`; a value is a `long`, modulo 2^64.
pub record StatCollector : Type 0 where
  pub launchtime : ℕ
  pub bytes_sent_value : ℕ
  pub bytes_received_value : ℕ
  pub requests_value : ℕ
  pub logins_value : ℕ
  pub db_queries_value : ℕ
  pub login_failures_value : ℕ
  pub connections_value : ℕ

-- `StatCollector::StatCollector`, at the time `now`
unfoldable pub collector : ℕ → StatCollector
collector now = record {
  launchtime = now;
  bytes_sent_value = 0;
  bytes_received_value = 0;
  requests_value = 0;
  logins_value = 0;
  db_queries_value = 0;
  login_failures_value = 0;
  connections_value = 0;
}

-- `getUptime`
abbrev pub get_uptime : ℕ → StatCollector → ℕ
get_uptime now c = (now + 2 ^ 64 - c.launchtime) % 2 ^ 64

-- `StatCollector::Get`
unfoldable pub get : ℕ → StatToken → StatCollector → ℕ
get now uptime c = get_uptime now c
get now bytes_sent c = c.bytes_sent_value
get now bytes_received c = c.bytes_received_value
get now requests c = c.requests_value
get now logins c = c.logins_value
get now db_queries c = c.db_queries_value
get now login_failures c = c.login_failures_value
get now connections c = c.connections_value

-- `StatCollector::Set`
unfoldable pub set : StatToken → ℕ → StatCollector → StatCollector
set uptime v c = c
set bytes_sent v c = record c { bytes_sent_value = v }
set bytes_received v c = record c { bytes_received_value = v }
set requests v c = record c { requests_value = v }
set logins v c = record c { logins_value = v }
set db_queries v c = record c { db_queries_value = v }
set login_failures v c = record c { login_failures_value = v }
set connections v c = record c { connections_value = v }

-- `StatCollector::Upd`, with what it returns; the delta is modulo 2^64, as the values are.
unfoldable pub upd : ℕ → StatToken → ℕ → StatCollector → ℕ × StatCollector
unfolding get set
upd now uptime delta c = (get_uptime now c, c)
upd now tok delta c = let value = (get now tok c + delta) % 2 ^ 64 in (value, set tok value c)

-- `__StatEntries`, in the order of the tokens
abbrev pub entries : List (StatToken × Bytes)
entries =
    (bytes_sent, codes "BytesSent")
    ∷ (bytes_received, codes "BytesRecieved")
    ∷ (requests, codes "Requests")
    ∷ (logins, codes "Logins")
    ∷ (uptime, codes "Uptime")
    ∷ (db_queries, codes "DBQueries")
    ∷ (login_failures, codes "LoginFailures")
    ∷ (connections, codes "Connections")
    ∷ []

abbrev entry_texts : ℕ → StatCollector → List (StatToken × Bytes) → Bytes
entry_texts now c [] = []
entry_texts now c ((tok, name) ∷ more) =
    name ++ codes " = " ++ int_text (get now tok c) ++ codes "; " ++ entry_texts now c more

-- `StatCollector::ListAll`
unfoldable pub list_all : ℕ → StatCollector → Bytes
unfolding get int_text
list_all now c = entry_texts now c entries

-- What is set is what is got, for each token but the uptime.
pub get-set :
    (now v : ℕ) (a : StatToken) (c : StatCollector) → a ≢ uptime → get now a (set a v c) ≡ v
unfolding get set
get-set now v uptime c h = absurd (h refl)
get-set now v _ c h = refl

-- An update returns what is got from then on.
pub get-upd :
    (now delta : ℕ) (a : StatToken) (c : StatCollector)
    → get now a (upd now a delta c).1 ≡ (upd now a delta c).0
unfolding upd
get-upd now delta uptime c = refl
get-upd now delta _ c = refl
