-- ===== src/Xml/Pages.antt =====
-- src/core/sp_xml.cpp, `spXmlParser`: what a parser gives, and what it keeps.
use evcp.Base.{◌≡◌, ap, ◌∙◌, Option, none, some, Bytes, List, [], ◌∷◌, arith}
use evcp.Connection.Headers.{c_str}
use evcp.Life.Blocks.{◌>>=◌}
use evcp.Xml.{Block, stylesheet_block, doc_block, text_block, Xslt, Parser, parse}

module _ {Style Doc : Type 0} (lib : Xslt Style Doc) where
  -- The page that a template makes of a document
  abbrev pub page : Option Style → Bytes → Option Bytes
  page tpl xmls = do
    style ← tpl
    doc ← lib.parse_memory (c_str xmls)
    made ← lib.apply style doc
    lib.to_string made style

  -- Only the text that is returned is left.
  abbrev pub kept : List (Block Style Doc) → Option Bytes → Parser Style Doc
  kept fs text = record {
    tpl = none;
    doc = none;
    result = none;
    xmlretbuf = none;
    retbuf = text;
    freed = fs;
  }

  -- On every branch the result is the page, and of what was made for it only that text is kept.
  parse-page :
      (xmls : Bytes) (p : Parser Style Doc)
      → parse lib xmls p ≡ (page p.tpl xmls, kept (parse lib xmls p).1.freed (page p.tpl xmls))
  unfolding parse
  parse-page xmls p = ground arith

  page_of : (xmls : Bytes) (p : Parser Style Doc) → (parse lib xmls p).0 ≡ page p.tpl xmls
  page_of xmls p = ap (λ (x : Option Bytes × Parser Style Doc). x.0) (parse-page xmls p)

  left_of :
      (xmls : Bytes) (p : Parser Style Doc)
      → (parse lib xmls p).1 ≡ kept (parse lib xmls p).1.freed (page p.tpl xmls)
  left_of xmls p = ap (λ (x : Option Bytes × Parser Style Doc). x.1) (parse-page xmls p)

  -- A parser is good for one page: whatever the first document was, the next one gets none.
  pub parse_again :
      (xmls more : Bytes) (p : Parser Style Doc) → (parse lib more (parse lib xmls p).1).0 ≡ none
  parse_again xmls more p =
      page_of more (parse lib xmls p).1
      ∙ ap (λ (x : Parser Style Doc). page x.tpl more) (left_of xmls p)

  -- All that a new parser has made of a document is freed with its template, each once.
  pub parse-freed :
      (xmls : Bytes) (tpl : Style) (doc made : Doc) (text : Bytes)
      → lib.parse_memory (c_str xmls) ≡ some doc
      → lib.apply tpl doc ≡ some made
      → lib.to_string made tpl ≡ some text
      → (parse lib xmls (record (kept [] none) { tpl = some tpl })).1.freed
        ≡ stylesheet_block tpl ∷ doc_block made ∷ doc_block doc ∷ text_block text ∷ []
  unfolding parse
  parse-freed xmls tpl doc made text h k l = ground (arith, h, k, l)
