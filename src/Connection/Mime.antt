-- ===== src/Connection/Mime.antt =====
-- src/core/connection.cpp, `fill_types_map` and `getmime`: the type of a file from its extension.
pub mod Search
use evcp.Base.{
  ℕ, zero, suc, [], ◌∷◌, List, Option, none, some, Bool, true, false, not, Bytes, ◌==◌,
  if◌then◌else◌, length, get_or, codes, ap, ◌≡◌, refl, ◌⊎◌, arith, beq, beq_iff, Bool-cases, inl,
  inr, ◌<◌, sym,
}
use evcp.Base.Maps.{StrMap, insert, lookup}

-- `sp_strncmp`, from the last of the `l` bytes to the first: whether they differ
unfoldable pub strncmp : ℕ → Bytes → Bytes → Bool
strncmp zero s1 s2 = false
strncmp (suc l) s1 s2 =
    let rest = strncmp l s1 s2 in if get_or s1 l 0 == get_or s2 l 0 then rest else true

-- The assignments of `fill_types_map`
unfoldable pub type_rows : List (Bytes × Bytes)
type_rows =
    (codes "html", codes "text/html")
    ∷ (codes "htm", codes "text/html")
    ∷ (codes "shtml", codes "text/html")
    ∷ (codes "css", codes "text/css")
    ∷ (codes "xml", codes "text/xml")
    ∷ (codes "gif", codes "image/gif")
    ∷ (codes "jpeg", codes "image/jpeg")
    ∷ (codes "jpg", codes "image/jpeg")
    ∷ (codes "js", codes "application/x-javascript")
    ∷ (codes "atom", codes "application/atom+xml")
    ∷ (codes "rss", codes "application/rss+xml")
    ∷ (codes "mml", codes "text/mathml")
    ∷ (codes "txt", codes "text/plain")
    ∷ (codes "jad", codes "text/vnd.sun.j2me.app-descriptor")
    ∷ (codes "wml", codes "text/vnd.wap.wml")
    ∷ (codes "htc", codes "text/x-component")
    ∷ (codes "png", codes "image/png")
    ∷ (codes "tiff", codes "image/tiff")
    ∷ (codes "tif", codes "image/tiff")
    ∷ (codes "wbmp", codes "image/vnd.wap.wbmp")
    ∷ (codes "ico", codes "image/x-icon")
    ∷ (codes "jng", codes "image/x-jng")
    ∷ (codes "bmp", codes "image/x-ms-bmp")
    ∷ (codes "svg", codes "image/svg+xml")
    ∷ (codes "war", codes "application/java-archive")
    ∷ (codes "ear", codes "application/java-archive")
    ∷ (codes "jar", codes "application/java-archive")
    ∷ (codes "hqx", codes "application/mac-binhex40")
    ∷ (codes "doc", codes "application/msword")
    ∷ (codes "pdf", codes "application/pdf")
    ∷ (codes "ps", codes "application/postscript")
    ∷ (codes "eps", codes "application/postscript")
    ∷ (codes "ai", codes "application/postscript")
    ∷ (codes "rtf", codes "application/rtf")
    ∷ (codes "xls", codes "application/vnd.ms-excel")
    ∷ (codes "ppt", codes "application/vnd.ms-powerpoint")
    ∷ (codes "wmlc", codes "application/vnd.wap.wmlc")
    ∷ (codes "xhtml", codes "application/vnd.wap.xhtml+xml")
    ∷ (codes "kml", codes "application/vnd.google-earth.kml+xml")
    ∷ (codes "kmz", codes "application/vnd.google-earth.kmz")
    ∷ (codes "cco", codes "application/x-cocoa")
    ∷ (codes "jardiff", codes "application/x-java-archive-diff")
    ∷ (codes "jnlp", codes "application/x-java-jnlp-file")
    ∷ (codes "run", codes "application/x-makeself")
    ∷ (codes "pm", codes "application/x-perl")
    ∷ (codes "pl", codes "application/x-perl")
    ∷ (codes "pdb", codes "application/x-pilot")
    ∷ (codes "prc", codes "application/x-pilot")
    ∷ (codes "rar", codes "application/x-rar-compressed")
    ∷ (codes "rpm", codes "application/x-redhat-package-manager")
    ∷ (codes "sea", codes "application/x-sea")
    ∷ (codes "swf", codes "application/x-shockwave-flash")
    ∷ (codes "sit", codes "application/x-stuffit")
    ∷ (codes "tk", codes "application/x-tcl")
    ∷ (codes "tcl", codes "application/x-tcl")
    ∷ (codes "der", codes "application/x-x509-ca-cert")
    ∷ (codes "pem", codes "application/x-x509-ca-cert")
    ∷ (codes "crt", codes "application/x-x509-ca-cert")
    ∷ (codes "xpi", codes "application/x-xpinstall")
    ∷ (codes "zip", codes "application/zip")
    ∷ (codes "bin", codes "application/octet-stream")
    ∷ (codes "exe", codes "application/octet-stream")
    ∷ (codes "dll", codes "application/octet-stream")
    ∷ (codes "deb", codes "application/octet-stream")
    ∷ (codes "dmg", codes "application/octet-stream")
    ∷ (codes "eot", codes "application/octet-stream")
    ∷ (codes "iso", codes "application/octet-stream")
    ∷ (codes "img", codes "application/octet-stream")
    ∷ (codes "msi", codes "application/octet-stream")
    ∷ (codes "msp", codes "application/octet-stream")
    ∷ (codes "msm", codes "application/octet-stream")
    ∷ (codes "mid", codes "audio/midi")
    ∷ (codes "midi", codes "audio/midi")
    ∷ (codes "kar", codes "audio/midi")
    ∷ (codes "mp3", codes "audio/mpeg")
    ∷ (codes "ra", codes "audio/x-realaudio")
    ∷ (codes "3gpp", codes "video/3gpp")
    ∷ (codes "3gp", codes "video/3gpp")
    ∷ (codes "mpeg", codes "video/mpeg")
    ∷ (codes "mpg", codes "video/mpeg")
    ∷ (codes "mov", codes "video/quicktime")
    ∷ (codes "flv", codes "video/x-flv")
    ∷ (codes "mng", codes "video/x-mng")
    ∷ (codes "asx", codes "video/x-ms-asf")
    ∷ (codes "asf", codes "video/x-ms-asf")
    ∷ (codes "wmv", codes "video/x-ms-wmv")
    ∷ (codes "avi", codes "video/x-msvideo")
    ∷ []

abbrev insert_all : List (Bytes × Bytes) → StrMap → StrMap
insert_all [] m = m
insert_all ((k, v) ∷ rows) m = insert_all rows (insert k v m)

-- `fill_types_map`
unfoldable pub types_map : StrMap
unfolding insert type_rows
types_map = insert_all type_rows []

abbrev default_type : Bytes
default_type = codes "text/html"

-- The loop over the map
unfoldable pub find_type : Bytes → StrMap → Bytes
unfolding strncmp
find_type x [] = default_type
find_type x ((k, t) ∷ m) =
    let rest = find_type x m in
    if not (length k == length x) then rest else if not (strncmp (length x) x k) then t else rest

-- `getmime`, for the extension of the URI, if it has one
unfoldable pub getmime : Option Bytes → Bytes
unfolding find_type types_map
getmime none = default_type
getmime (some x) = find_type x types_map
