-- ===== src/Xml.antt =====
-- src/core/sp_xml.cpp: a document is made into a page with a template.
pub mod Params
pub mod Pages
use evcp.Base.{
  ◌≡◌, refl, Option, none, some, Bool, true, false, Bytes, List, [], ◌∷◌, ◌++◌, if◌then◌else◌,
}
use evcp.Connection.Headers.{c_str}

-- What libxml and libxslt do: read a template and a document, make one document of another, and print it.
pub record Xslt (Style Doc : Type 0) : Type 0 where
  pub stylesheet : Bytes → Option Style
  pub parse_memory : Bytes → Option Doc
  pub apply : Style → Doc → Option Doc
  pub to_string : Doc → Style → Option Bytes

-- What is freed: by `xsltFreeStylesheet`, by `xmlFreeDoc`, or by `free`
pub data Block (Style Doc : Type 0) : Type 0 where
  stylesheet_block : Style → Block Style Doc
  doc_block : Doc → Block Style Doc
  text_block : Bytes → Block Style Doc

-- `spXmlParser`, without the name of the template, and with what has been freed
pub record Parser (Style Doc : Type 0) : Type 0 where
  pub tpl : Option Style
  pub doc : Option Doc
  pub result : Option Doc
  pub xmlretbuf : Option Bytes
  pub retbuf : Option Bytes
  pub freed : List (Block Style Doc)

-- `if(p != NULL)`
abbrev unless_null : {A B : Type 0} → (A → B) → Option A → List B
unless_null f none = []
unless_null f (some x) = f x ∷ []

module _ {Style Doc : Type 0} where
  -- `cleanup(full)`; its value is NULL.
  unfoldable pub cleanup : Bool → Parser Style Doc → Parser Style Doc
  cleanup full p = record {
    tpl = none;
    doc = none;
    result = none;
    xmlretbuf = none;
    retbuf = if full then none else p.retbuf;
    freed =
        p.freed
        ++ unless_null stylesheet_block p.tpl
        ++ unless_null doc_block p.result
        ++ unless_null doc_block p.doc
        ++ (if full then unless_null text_block p.retbuf else [])
        ++ unless_null text_block p.xmlretbuf;
  }

  module _ (lib : Xslt Style Doc) where
    -- `spXmlParser(t)`
    unfoldable pub from_file : Bytes → Parser Style Doc
    from_file t = record {
      tpl = lib.stylesheet (c_str t);
      doc = none;
      result = none;
      xmlretbuf = none;
      retbuf = none;
      freed = [];
    }

    -- `doparse`, from `xsltSaveResultToString` on
    unfoldable pub save : Style → Doc → Parser Style Doc → Option Bytes × Parser Style Doc
    unfolding cleanup
    save tpl result p = elim (lib.to_string result tpl) [
      | none ↦ (none, cleanup true p)
      | some text ↦
          (some text, cleanup false (record p { xmlretbuf = some text; retbuf = some text }))
    ]

    -- `doparse`, from `xsltApplyStylesheet` on
    unfoldable pub apply_to : Style → Doc → Parser Style Doc → Option Bytes × Parser Style Doc
    unfolding cleanup save
    apply_to tpl doc p = elim (lib.apply tpl doc) [
      | none ↦ (none, cleanup true p)
      | some result ↦ save tpl result (record p { result = some result })
    ]

    -- `doparse`
    unfoldable pub doparse : Bytes → Parser Style Doc → Option Bytes × Parser Style Doc
    unfolding cleanup apply_to
    doparse xmls p = elim p.tpl [
      | none ↦ (none, cleanup true p)
      | some tpl ↦ elim (lib.parse_memory (c_str xmls)) [
        | none ↦ (none, cleanup true p)
        | some doc ↦ apply_to tpl doc (record p { doc = some doc })
      ]
    ]

    -- `parse(xmls)`
    unfoldable pub parse : Bytes → Parser Style Doc → Option Bytes × Parser Style Doc
    unfolding doparse
    parse xmls p = doparse xmls p

    -- `parse(xmls, t)`
    unfoldable pub parse_with : Bytes → Bytes → Parser Style Doc → Option Bytes × Parser Style Doc
    unfolding doparse
    parse_with xmls t p = elim p.tpl [
      | some tpl ↦ doparse xmls p
      | none ↦ elim (lib.stylesheet (c_str t)) [
        | none ↦ (none, p)
        | some tpl ↦ doparse xmls (record p { tpl = some tpl })
      ]
    ]
