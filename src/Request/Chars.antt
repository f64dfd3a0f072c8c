-- ===== src/Request/Chars.antt =====
-- src/core/request.cpp: the tables `usual` and `lowcase`, and the tests on one character.
use evcp.Base.{
  ℕ, ◌+◌, ◌/◌, ◌%◌, ◌^◌, bit_or, Bool, List, [], ◌∷◌, ◌||◌, ◌==◌, within, get_or, if◌then◌else◌,
}

abbrev pub lf : ℕ
lf = 10

abbrev pub cr : ℕ
cr = 13

-- `static uint32_t usual[]`
abbrev usual : List ℕ
usual =
    0xffffdbfe ∷ 0x7fff37d6 ∷ 0xffffffff ∷ 0xffffffff ∷ 0xffffffff ∷ 0xffffffff ∷ 0xffffffff
    ∷ 0xffffffff ∷ []

-- `usual[ch >> 5] & (1 << (ch & 0x1f))`
unfoldable pub is_usual : ℕ → Bool
is_usual ch = (get_or usual (ch / 32) 0 / 2 ^ (ch % 32)) % 2 == 1

-- `c = (u_char) (ch | 0x20); c >= 'a' && c <= 'z'`
unfoldable pub is_letter : ℕ → Bool
is_letter ch = within b'a' b'z' (bit_or ch 0x20)

-- `ch >= '0' && ch <= '9'`
abbrev pub is_digit : ℕ → Bool
is_digit ch = within b'0' b'9' ch

-- `!((ch < 'A' || ch > 'Z') && ch != '_')`
abbrev pub is_method_char : ℕ → Bool
is_method_char ch = within b'A' b'Z' ch || ch == b'_'

-- `lowcase[ch]`; 0 for a character that a header's name does not take
unfoldable pub lowcase : ℕ → ℕ
lowcase ch =
    if within b'a' b'z' ch || is_digit ch || ch == b'-'
    then ch
    else if within b'A' b'Z' ch
    then ch + 32
    else 0
