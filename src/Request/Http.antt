-- ===== src/Request/Http.antt =====
-- src/core/request.h: the methods and the statuses.
use evcp.Base.{ℕ}

abbrev pub get : ℕ
get = 0x0002

abbrev pub head : ℕ
head = 0x0004

abbrev pub post : ℕ
post = 0x0008

abbrev pub put : ℕ
put = 0x0010

abbrev pub delete : ℕ
delete = 0x0020

abbrev pub mkcol : ℕ
mkcol = 0x0040

abbrev pub copy : ℕ
copy = 0x0080

abbrev pub move : ℕ
move = 0x0100

abbrev pub options : ℕ
options = 0x0200

abbrev pub propfind : ℕ
propfind = 0x0400

abbrev pub proppatch : ℕ
proppatch = 0x0800

abbrev pub lock : ℕ
lock = 0x1000

abbrev pub unlock : ℕ
unlock = 0x2000

abbrev pub trace : ℕ
trace = 0x4000

abbrev pub ok : ℕ
ok = 200
