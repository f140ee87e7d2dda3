-- ===== src/Scraper/Markdown.antt =====
-- internal/scraper/markdown.go: htmlToMarkdown, on the tree of what the HTML library answers about
-- each node that the walk comes to.
use web_gobbler.Prelude.{
  ℕ, zero, suc, String, str_eq, str_append, contains, Bool, true, false, not, ◌&&◌, Option, none,
  some, List, [], ◌∷◌, if◌then◌else◌,
}

-- A selection of one node: a text node with its Text(), or any other with its NodeName, its Text(),
-- the value of Attr("href"), and its Contents().
mutual
  pub data Node : Type 0 where
    text_node : String → Node
    element : String → String → Option String → Nodes → Node

  pub data Nodes : Type 0 where
    no_nodes : Nodes
    node : Node → Nodes → Nodes

-- strings.TrimSpace and strings.Fields.
pub record Spaces : Type 0 where
  pub trim_space : String → String
  pub fields : String → List String

-- The cases of the switch on the name.
pub data Tag : Type 0 where
  noise para line_break anchor pre code quote other : Tag
  heading : ℕ → Tag
  items : String → Tag

abbrev pub tag_of : String → Tag
tag_of name =
    if contains ("script" ∷ "style" ∷ "nav" ∷ "footer" ∷ "noscript" ∷ []) name
    then noise
    else if str_eq name "h1"
    then heading 1
    else if str_eq name "h2"
    then heading 2
    else if str_eq name "h3"
    then heading 3
    else if str_eq name "h4"
    then heading 4
    else if str_eq name "h5"
    then heading 5
    else if str_eq name "h6"
    then heading 6
    else if str_eq name "p"
    then para
    else if str_eq name "br"
    then line_break
    else if str_eq name "a"
    then anchor
    else if str_eq name "ul"
    then items "- "
    else if str_eq name "ol"
    then items "1. "
    else if str_eq name "pre"
    then pre
    else if str_eq name "code"
    then code
    else if str_eq name "blockquote"
    then quote
    else other

-- strings.Repeat
abbrev pub repeat : ℕ → String → String
repeat zero s = ""
repeat (suc n) s = str_append s (repeat n s)

-- strings.Join(_, " ")
abbrev pub join_spaces : List String → String
join_spaces [] = ""
join_spaces (s ∷ []) = s
join_spaces (s ∷ t ∷ ts) = str_append s (str_append " " (join_spaces (t ∷ ts)))

abbrev pub href_of : Option String → String
href_of none = ""
href_of (some href) = href

-- b.WriteString for each of the texts in turn.
abbrev pub write : List String → String → String
write [] b = b
write (s ∷ ss) b = write ss (str_append b s)

module _ (sp : Spaces) where
  -- collapseWS
  abbrev pub collapse_ws : String → String
  collapse_ws s = join_spaces (sp.fields s)

  abbrev pub write_link : String → String → String → String
  write_link href text b =
      if not (str_eq href "") && not (str_eq text "")
      then write ("[" ∷ text ∷ "](" ∷ href ∷ ")" ∷ []) b
      else if not (str_eq text "")
      then write (text ∷ []) b
      else b

  -- The loop over ChildrenFiltered("li").
  abbrev pub write_items : String → Nodes → String → String
  write_items mark no_nodes b = b
  write_items mark (node (text_node t) rest) b = write_items mark rest b
  write_items mark (node (element name text href inner) rest) b =
      write_items mark rest
        (if str_eq name "li" then write (mark ∷ sp.trim_space text ∷ "\n" ∷ []) b else b)

  abbrev pub write_text : Bool → String → String → String
  write_text true text b = write (text ∷ []) b
  write_text false text b =
      let t = collapse_ws text in if not (str_eq t "") then write (t ∷ []) b else b

  -- The switch: the text and the link of the node, its contents and their walk, inPre and the
  -- builder.
  abbrev pub walk_tag :
      Tag → String → Option String → Nodes → (Bool → String → String) → Bool → String → String
  walk_tag noise text href inner walk in_pre b = b
  walk_tag (heading level) text href inner walk in_pre b =
      write ("\n\n" ∷ repeat level "#" ∷ " " ∷ sp.trim_space text ∷ "\n\n" ∷ []) b
  walk_tag para text href inner walk in_pre b =
      write ("\n\n" ∷ []) (walk false (write ("\n\n" ∷ []) b))
  walk_tag line_break text href inner walk in_pre b = write ("\n" ∷ []) b
  walk_tag anchor text href inner walk in_pre b = write_link (href_of href) (sp.trim_space text) b
  walk_tag (items mark) text href inner walk in_pre b =
      write ("\n" ∷ []) (write_items mark inner (write ("\n" ∷ []) b))
  walk_tag pre text href inner walk in_pre b =
      write ("\n```\n\n" ∷ []) (walk true (write ("\n\n```\n" ∷ []) b))
  walk_tag code text href inner walk true b = walk true b
  walk_tag code text href inner walk false b = write ("`" ∷ sp.trim_space text ∷ "`" ∷ []) b
  walk_tag quote text href inner walk in_pre b =
      write ("\n\n> " ∷ sp.trim_space text ∷ "\n\n" ∷ []) b
  walk_tag other text href inner walk in_pre b = walk in_pre b

  -- walkMarkdown
  unfoldable mutual
    pub walk_node : Node → Bool → String → String
    walk_node (text_node text) in_pre b = write_text in_pre text b
    walk_node (element name text href inner) in_pre b =
        walk_tag (tag_of name) text href inner (walk_nodes inner) in_pre b

    pub walk_nodes : Nodes → Bool → String → String
    walk_nodes no_nodes in_pre b = b
    walk_nodes (node n rest) in_pre b = walk_nodes rest in_pre (walk_node n in_pre b)

  -- htmlToMarkdown, of the contents of its root
  unfoldable pub html_to_markdown : Nodes → String
  html_to_markdown root = sp.trim_space (walk_nodes root false "")
