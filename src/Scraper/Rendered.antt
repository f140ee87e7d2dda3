-- ===== src/Scraper/Rendered.antt =====
-- internal/scraper/markdown.go: the walk over the tree writes what the shapes of its elements say.
use Prim.Native.String.append
use text.Mathlib.TextLemmas.{append-nil, append_assoc}
use web_gobbler.Prelude.{
  String, str_eq, str_eq_iff_to, str_append, Bool, true, false, Option, List, [], ◌∷◌, ◌≡◌, refl,
  sym, ap, ◌∙◌, inl, inr, Bool-cases, if◌then◌else◌,
}
use web_gobbler.Scraper.Markdown.{
  text_node, element, Node, Nodes, no_nodes, node, Spaces, Tag, noise, para, line_break, anchor,
  pre, code, quote, other, heading, items, tag_of, repeat, href_of, write, collapse_ws, write_link,
  write_items, write_text, walk_node, walk_tag, walk_nodes, html_to_markdown,
}
use web_gobbler.Scraper.Shapes.{
  concat, link, list_items, tag_shape, shape_text, tag_of-shape_of, render, render_all,
}

module _ (sp : Spaces) where
  write-concat : (ss : List String) (b : String) → write ss b ≡ str_append b (concat ss)
  write-concat [] b = sym (append-nil b)
  write-concat (s ∷ ss) b = write-concat ss (str_append b s) ∙ append_assoc b s (concat ss)

  write_link-link :
      (href text b : String) → write_link sp href text b ≡ str_append b (link sp href text)
  write_link-link href text b = elim (Bool-cases (str_eq text "")) [
    | inl blank ↦ elim (Bool-cases (str_eq href "")) [
      | inl no_link ↦ rw (blank, no_link) (sym (append-nil b))
      | inr there ↦ rw (blank, there) (sym (append-nil b))
    ]
    | inr text_there ↦ elim (Bool-cases (str_eq href "")) [
      | inl no_link ↦ rw (text_there, no_link) refl
      | inr there ↦ rw (text_there, there) (write-concat ("[" ∷ text ∷ "](" ∷ href ∷ ")" ∷ []) b)
    ]
  ]

  write_item :
      (mark text b : String) (is_item : Bool)
      → (if is_item then write (mark ∷ sp.trim_space text ∷ "\n" ∷ []) b else b)
        ≡ str_append b (if is_item then concat (mark ∷ sp.trim_space text ∷ "\n" ∷ []) else "")
  write_item mark text b true = write-concat (mark ∷ sp.trim_space text ∷ "\n" ∷ []) b
  write_item mark text b false = sym (append-nil b)

  write_items-list_items :
      (mark : String) (ns : Nodes) (b : String)
      → write_items sp mark ns b ≡ str_append b (list_items sp mark ns)
  write_items-list_items mark no_nodes b = sym (append-nil b)
  write_items-list_items mark (node (text_node t) rest) b = write_items-list_items mark rest b
  write_items-list_items mark (node (element name text href inner) rest) b =
      write_items-list_items mark rest _
      ∙ ap (λ t. str_append t (list_items sp mark rest)) (write_item mark text b (str_eq name "li"))
      ∙ append_assoc b _ (list_items sp mark rest)

  write_text-collapse :
      (in_pre : Bool) (text b : String)
      → write_text sp in_pre text b ≡ str_append b (if in_pre then text else collapse_ws sp text)
  write_text-collapse true text b = refl
  write_text-collapse false text b = elim (Bool-cases (str_eq (collapse_ws sp text) "")) [
    | inl blank ↦ rw blank (
        sym (append-nil b) ∙ ap (str_append b) (sym (str_eq_iff_to (collapse_ws sp text) "" blank)))
    | inr there ↦ rw there refl
  ]

  -- Two texts around what a walk writes.
  around :
      (before after b inside : String) (walk : String → String)
      → ((c : String) → walk c ≡ str_append c inside)
      → write (after ∷ []) (walk (write (before ∷ []) b))
        ≡ str_append b (concat (before ∷ inside ∷ after ∷ []))
  around before after b inside walk h =
      ap (λ t. str_append t after) (h (str_append b before))
      ∙ append_assoc (str_append b before) inside after
      ∙ append_assoc b before (str_append inside after)
      ∙ ap (λ t. str_append b (str_append before (str_append inside t))) (sym (append-nil after))

  walk_tag-shape_text :
      (t : Tag) (text : String) (href : Option String) (inner : Nodes)
      (walk : Bool → String → String) (inside : Bool → String) (in_pre : Bool) (b : String)
      → ((p : Bool) (c : String) → walk p c ≡ str_append c (inside p))
      → walk_tag sp t text href inner walk in_pre b
        ≡ str_append b (shape_text sp (tag_shape t) text href inner inside in_pre)
  walk_tag-shape_text noise text href inner walk inside in_pre b h = sym (append-nil b)
  walk_tag-shape_text (heading level) text href inner walk inside in_pre b h =
      let rest = concat (sp.trim_space text ∷ "\n\n" ∷ []) in
      write-concat ("\n\n" ∷ repeat level "#" ∷ " " ∷ sp.trim_space text ∷ "\n\n" ∷ []) b
      ∙ ap (str_append b) (
          ap (str_append "\n\n") (sym (append_assoc (repeat level "#") " " rest))
          ∙ sym (append_assoc "\n\n" (str_append (repeat level "#") " ") rest))
  walk_tag-shape_text para text href inner walk inside in_pre b h =
      around "\n\n" "\n\n" b (inside false) (walk false) (h false)
  walk_tag-shape_text line_break text href inner walk inside in_pre b h = refl
  walk_tag-shape_text anchor text href inner walk inside in_pre b h =
      write_link-link (href_of href) (sp.trim_space text) b
  walk_tag-shape_text (items mark) text href inner walk inside in_pre b h =
      around "\n" "\n" b (list_items sp mark inner) (write_items sp mark inner)
        (write_items-list_items mark inner)
  walk_tag-shape_text pre text href inner walk inside in_pre b h =
      around "\n\n```\n" "\n```\n\n" b (inside true) (walk true) (h true)
  walk_tag-shape_text code text href inner walk inside true b h = h true b
  walk_tag-shape_text code text href inner walk inside false b h =
      write-concat ("`" ∷ sp.trim_space text ∷ "`" ∷ []) b
  walk_tag-shape_text quote text href inner walk inside in_pre b h =
      write-concat ("\n\n> " ∷ sp.trim_space text ∷ "\n\n" ∷ []) b
  walk_tag-shape_text other text href inner walk inside in_pre b h = h in_pre b

  mutual
    unfolding walk_node render

    walk_node-render :
        (n : Node) (in_pre : Bool) (b : String)
        → walk_node sp n in_pre b ≡ str_append b (render sp n in_pre)
    walk_node-render (text_node text) in_pre b = write_text-collapse in_pre text b
    walk_node-render (element name text href inner) in_pre b =
        walk_tag-shape_text (tag_of name) text href inner (walk_nodes sp inner)
          (render_all sp inner) in_pre b (walk_nodes-render_all inner)
        ∙ ap
            (λ shape.
              str_append b (shape_text sp shape text href inner (render_all sp inner) in_pre))
            (tag_of-shape_of name)

    walk_nodes-render_all :
        (ns : Nodes) (in_pre : Bool) (b : String)
        → walk_nodes sp ns in_pre b ≡ str_append b (render_all sp ns in_pre)
    walk_nodes-render_all no_nodes in_pre b = sym (append-nil b)
    walk_nodes-render_all (node n rest) in_pre b =
        walk_nodes-render_all rest in_pre (walk_node sp n in_pre b)
        ∙ ap (λ t. str_append t (render_all sp rest in_pre)) (walk_node-render n in_pre b)
        ∙ append_assoc b (render sp n in_pre) (render_all sp rest in_pre)

  -- htmlToMarkdown, which writes to one builder as it walks, is the trimmed text that the tree
  -- stands for: the texts of the nodes one after the other, with white space collapsed but within
  -- `pre`, and an element, by its name, the text that the table of shapes says, around its trimmed
  -- text, its contents or its list items; nothing for scripts, styles, navigation and footers.
  pub html_to_markdown-render_all :
      (root : Nodes) → html_to_markdown sp root ≡ sp.trim_space (render_all sp root false)
  unfolding html_to_markdown
  html_to_markdown-render_all root =
      ap sp.trim_space (walk_nodes-render_all root false "" ∙ append.nil (render_all sp root false))
