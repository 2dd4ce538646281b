-- ===== src/Tests/ParseHtml.antt =====
-- A page with a title and two links.
use amigao.Base.{none, [], ◌∷◌, some, ◌≡◌, refl, arith, All, codes}
use amigao.ParseHtml.{
  Tag, GumboNode, Children, is_code, and_then, get_links_contents, add_link, find_title,
}
use amigao.ParseHtml.Links.{IsLink, HasStrings, get_links_contents-IsLink}
use amigao.Url.{
  format_url, effective, clean, to_lower, skip_blanks, cut_tail, scan, skip_scheme, skip_www,
  is_script, keeps, check_url,
}

abbrev link : GumboNode
link =
    GumboNode.element Tag.a (some (codes "http://A.b/c"))
      (Children.child (GumboNode.text (codes "hi")) Children.no_more)

abbrev page_head : GumboNode
page_head = GumboNode.element Tag.head none (
    Children.child
      (GumboNode.element Tag.title none
        (Children.child (GumboNode.text (codes "T")) Children.no_more))
      Children.no_more)

abbrev root : GumboNode
root =
    GumboNode.element Tag.other none
      (Children.child page_head (Children.child link (Children.child link Children.no_more)))

collected :
    (get_links_contents root [] [] ≡ some (codes "a.b/c" ∷ [], codes "Thi\nhi\n"))
    × (find_title root ≡ codes "T")
unfolding get_links_contents and_then is_code add_link find_title format_url effective clean
    to_lower skip_blanks cut_tail scan skip_scheme skip_www is_script keeps check_url
collected = (refl, refl)

root-HasStrings : HasStrings root
root-HasStrings = ground arith

get_links_contents-IsLink_example : All IsLink (codes "a.b/c" ∷ [])
get_links_contents-IsLink_example = get_links_contents-IsLink root root-HasStrings collected.0
