-- ===== src/Scraper/Shapes.antt =====
-- What the Markdown of a tree is, without a builder and without the switch of
-- internal/scraper/markdown.go: a table from the names of elements to shapes.
use web_gobbler.Prelude.{
  String, str_eq, str_append, contains, Bool, true, false, Option, List, [], ◌∷◌, ◌≡◌, refl,
  if◌then◌else◌,
}
use web_gobbler.Scraper.Markdown.{
  Node, text_node, element, Nodes, no_nodes, node, Spaces, Tag, noise, para, line_break, anchor,
  pre, code, quote, other, heading, items, tag_of, repeat, href_of, collapse_ws,
}

abbrev pub concat : List String → String
concat [] = ""
concat (s ∷ ss) = str_append s (concat ss)

-- The shapes that elements have in Markdown.
pub data Shape : Type 0 where
  nothing new_line linked inline_code plain : Shape
  words : String → String → Shape
  block : String → String → Bool → Shape
  listing : String → Shape

-- The shape of each element that has one of its own.
abbrev pub shapes : List (String × Shape)
shapes =
    ("h1", words "\n\n# " "\n\n")
    ∷ ("h2", words "\n\n## " "\n\n")
    ∷ ("h3", words "\n\n### " "\n\n")
    ∷ ("h4", words "\n\n#### " "\n\n")
    ∷ ("h5", words "\n\n##### " "\n\n")
    ∷ ("h6", words "\n\n###### " "\n\n")
    ∷ ("p", block "\n\n" "\n\n" false)
    ∷ ("br", new_line)
    ∷ ("a", linked)
    ∷ ("ul", listing "- ")
    ∷ ("ol", listing "1. ")
    ∷ ("pre", block "\n\n```\n" "\n```\n\n" true)
    ∷ ("code", inline_code)
    ∷ ("blockquote", words "\n\n> " "\n\n")
    ∷ []

abbrev pub silent : List String
silent = "script" ∷ "style" ∷ "nav" ∷ "footer" ∷ "noscript" ∷ []

abbrev pub find_shape : List (String × Shape) → String → Shape
find_shape [] name = plain
find_shape (e ∷ es) name = if str_eq name e.0 then e.1 else find_shape es name

abbrev pub shape_of : String → Shape
shape_of name = if contains silent name then nothing else find_shape shapes name

-- The shape of each case of the walk.
abbrev pub tag_shape : Tag → Shape
tag_shape noise = nothing
tag_shape (heading level) = words (str_append "\n\n" (str_append (repeat level "#") " ")) "\n\n"
tag_shape para = block "\n\n" "\n\n" false
tag_shape line_break = new_line
tag_shape anchor = linked
tag_shape (items mark) = listing mark
tag_shape pre = block "\n\n```\n" "\n```\n\n" true
tag_shape code = inline_code
tag_shape quote = words "\n\n> " "\n\n"
tag_shape other = plain

-- A switch over tests, and the shapes of its cases.
abbrev switch : List (Bool × Tag) → Tag
switch [] = other
switch ((test, t) ∷ cases) = if test then t else switch cases

abbrev switch_shape : List (Bool × Tag) → Shape
switch_shape [] = plain
switch_shape ((test, t) ∷ cases) = if test then tag_shape t else switch_shape cases

switch-tag_shape : (cases : List (Bool × Tag)) → tag_shape (switch cases) ≡ switch_shape cases
switch-tag_shape [] = refl
switch-tag_shape ((true, t) ∷ cases) = refl
switch-tag_shape ((false, t) ∷ cases) = switch-tag_shape cases

-- The switch on the name finds what the table says.
pub tag_of-shape_of : (name : String) → tag_shape (tag_of name) ≡ shape_of name
tag_of-shape_of name = switch-tag_shape (
    (contains silent name, noise)
    ∷ (str_eq name "h1", heading 1)
    ∷ (str_eq name "h2", heading 2)
    ∷ (str_eq name "h3", heading 3)
    ∷ (str_eq name "h4", heading 4)
    ∷ (str_eq name "h5", heading 5)
    ∷ (str_eq name "h6", heading 6)
    ∷ (str_eq name "p", para)
    ∷ (str_eq name "br", line_break)
    ∷ (str_eq name "a", anchor)
    ∷ (str_eq name "ul", items "- ")
    ∷ (str_eq name "ol", items "1. ")
    ∷ (str_eq name "pre", pre)
    ∷ (str_eq name "code", code)
    ∷ (str_eq name "blockquote", quote)
    ∷ [])

module _ (sp : Spaces) where
  abbrev pub link : String → String → String
  link href text =
      if str_eq text ""
      then ""
      else if str_eq href ""
      then text
      else concat ("[" ∷ text ∷ "](" ∷ href ∷ ")" ∷ [])

  abbrev pub list_items : String → Nodes → String
  list_items mark no_nodes = ""
  list_items mark (node (text_node t) rest) = list_items mark rest
  list_items mark (node (element name text href inner) rest) =
      str_append (if str_eq name "li" then concat (mark ∷ sp.trim_space text ∷ "\n" ∷ []) else "")
        (list_items mark rest)

  -- What an element of a shape is, by the text between its tags and what is inside of it.
  abbrev pub shape_text : Shape → String → Option String → Nodes → (Bool → String) → Bool → String
  shape_text nothing text href inner inside in_pre = ""
  shape_text new_line text href inner inside in_pre = "\n"
  shape_text (words before after) text href inner inside in_pre =
      concat (before ∷ sp.trim_space text ∷ after ∷ [])
  shape_text (block before after pre_inside) text href inner inside in_pre =
      concat (before ∷ inside pre_inside ∷ after ∷ [])
  shape_text (listing mark) text href inner inside in_pre =
      concat ("\n" ∷ list_items mark inner ∷ "\n" ∷ [])
  shape_text linked text href inner inside in_pre = link (href_of href) (sp.trim_space text)
  shape_text inline_code text href inner inside true = inside true
  shape_text inline_code text href inner inside false = concat ("`" ∷ sp.trim_space text ∷ "`" ∷ [])
  shape_text plain text href inner inside in_pre = inside in_pre

  unfoldable mutual
    pub render : Node → Bool → String
    render (text_node text) in_pre = if in_pre then text else collapse_ws sp text
    render (element name text href inner) in_pre =
        shape_text (shape_of name) text href inner (render_all inner) in_pre

    pub render_all : Nodes → Bool → String
    render_all no_nodes in_pre = ""
    render_all (node n rest) in_pre = str_append (render n in_pre) (render_all rest in_pre)
