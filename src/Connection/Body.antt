-- ===== src/Connection/Body.antt =====
-- src/core/connection.cpp, `conn_read`: the variables in the body of a POST.
use evcp.Base.{
  ℕ, ◌≡◌, ◌∙◌, refl, ap, [], ◌∷◌, ◌++◌, List, ◌||◌, true, Bytes, drop, ◌==◌, if◌then◌else◌, arith,
}
use evcp.Base.Maps.{StrMap}
use evcp.Request.Chars.{lf, cr}
use evcp.Request.{Request}
use evcp.Connection.Values.{read_http_values}
use evcp.Connection.Values.RoundTrip.{
  AreVariables, query_text, assign_all, is_unreserved, escape, read_http_values-query_text,
}

-- `for(;r->header_end < r->last;r->header_end++)`: line ends in front of the body are left out.
unfoldable pub skip_line_ends : Bytes → Bytes
skip_line_ends [] = []
skip_line_ends (c ∷ cs) =
    let rest = skip_line_ends cs in if c == lf || c == cr then rest else c ∷ cs

-- `if(r->method == NGX_HTTP_POST)`, for what the buffer holds by then
unfoldable pub post_vars : Bytes → Request → StrMap
unfolding skip_line_ends
post_vars buf r = read_http_values [] (skip_line_ends (drop r.header_end buf))

abbrev pub AreLineEnds : Bytes → Type 0
AreLineEnds [] = Unit
AreLineEnds (c ∷ cs) = ((c == lf || c == cr) ≡ true) × AreLineEnds cs

skip_line_ends-append :
    (ends text : Bytes) → AreLineEnds ends → skip_line_ends (ends ++ text) ≡ skip_line_ends text
unfolding skip_line_ends
skip_line_ends-append [] text h = refl
skip_line_ends-append (c ∷ cs) text (e, h) = rw e (skip_line_ends-append cs text h)

skip_line_ends-unreserved :
    (c : ℕ) (cs : Bytes) → is_unreserved c ≡ true → skip_line_ends (c ∷ cs) ≡ c ∷ cs
unfolding skip_line_ends
skip_line_ends-unreserved c cs h = ground arith

skip_line_ends-query_text :
    (vars : List (Bytes × Bytes))
    → AreVariables vars
    → skip_line_ends (query_text vars) ≡ query_text vars
skip_line_ends-query_text [] h = unfold skip_line_ends in refl
skip_line_ends-query_text (([], v) ∷ more) (ne, _, _, _) = elim (ne refl) [ ]
skip_line_ends-query_text ((c ∷ k, v) ∷ []) (ne, (u, us), _, _) =
    skip_line_ends-unreserved c (k ++ b'=' ∷ escape v []) u
skip_line_ends-query_text ((c ∷ k, v) ∷ next ∷ more) (ne, (u, us), _, _) =
    skip_line_ends-unreserved c (k ++ b'=' ∷ escape v (b'&' ∷ query_text (next ∷ more))) u

-- The body of a form, as a browser encodes it and behind any line ends, gives the form's variables:
-- those whose names are not empty and need no escape, with any bytes in their values.
post_vars-query_text :
    (buf : Bytes) (r : Request) (ends : Bytes) (vars : List (Bytes × Bytes))
    → AreLineEnds ends
    → AreVariables vars
    → drop r.header_end buf ≡ ends ++ query_text vars
    → post_vars buf r ≡ assign_all vars []
unfolding post_vars
post_vars-query_text buf r ends vars h vs e =
    ap (λ t. read_http_values [] (skip_line_ends t)) e
    ∙ ap (read_http_values [])
        (skip_line_ends-append ends (query_text vars) h ∙ skip_line_ends-query_text vars vs)
    ∙ read_http_values-query_text vars [] vs
