-- ===== src/Response/Status.antt =====
-- src/core/connection.cpp, `conn_stdresp`: the status lines.
use evcp.Base.{ℕ, ◌++◌, Bytes, ◌==◌, codes, if◌then◌else◌}

abbrev status_line : Bytes → Bytes
status_line text = codes "HTTP/1.1 " ++ (text ++ codes "\r\n")

-- `case 4…` and `case 3…`, and the statuses that the switch does not know
unfoldable pub client_resp : ℕ → Bytes
client_resp code =
    if code == 417
    then codes "417 Expectation Failed"
    else if code == 416
    then codes "416 Requested Range Not Satisfiable"
    else if code == 415
    then codes "415 Unsupported Media Type"
    else if code == 414
    then codes "414 Request-URI Too Long"
    else if code == 413
    then codes "413 Request Entity Too Large"
    else if code == 412
    then codes "412 Precondition Failed"
    else if code == 411
    then codes "411 Length Required"
    else if code == 410
    then codes "410 Gone"
    else if code == 409
    then codes "409 Conflict"
    else if code == 408
    then codes "408 Request Timeout"
    else if code == 406
    then codes "406 Not Acceptable"
    else if code == 404
    then codes "404 Not Found"
    else if code == 403
    then codes "403 Forbidden"
    else if code == 401
    then codes "401 Unauthorized"
    else if code == 400
    then codes "400 Bad Request"
    else if code == 304
    then codes "304 Not Modified"
    else if code == 302
    then codes "302 Found"
    else if code == 200
    then codes "200 OK"
    else codes "501 Not Implemented"

-- `switch(code)`
unfoldable pub std_resp : ℕ → Bytes
unfolding client_resp
std_resp code = status_line (
    if code == 505
    then codes "505 HTTP Version Not Supported"
    else if code == 504
    then codes "504 Gateway Timeout"
    else if code == 503
    then codes "503 Service Unavailable"
    else if code == 502
    then codes "502 Bad Gateway"
    else if code == 500
    then codes "500 Server Error"
    else client_resp code)
