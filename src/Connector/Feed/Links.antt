-- ===== src/Connector/Feed/Links.antt =====
-- The links of the items of a feed (connector/oai.go).
use cindex.Prelude.{
  ◌≡◌, subst, Option, none, some, List, [], ◌∷◌, ◌||◌, Text, codes, text_eq, All, if-cases,
}
use cindex.Go.Errors.{Result, ok, err}
use cindex.Connector.Xml.{XmlNode, local, child, child_nodes}
use cindex.Connector.Feed.{
  FeedItem, or_text, with_link, read_fields, read_items, rss_field, atom_field, rss_of, parse_rss,
  parse_atom, feed_of, parse_feed, empty_item,
}

-- An item without a link has no GUID either.
Linked : FeedItem → Type 0
Linked it = it.link ≡ [] → it.guid ≡ []

or_text-nil : (s t : Text) → or_text s t ≡ [] → t ≡ []
unfolding or_text
or_text-nil [] t h = h
or_text-nil (c ∷ s) t h = cc

read_items-Linked :
    (read : XmlNode → FeedItem → FeedItem) (nodes : List XmlNode)
    → All Linked (read_items read nodes)
unfolding read_items with_link Linked
read_items-Linked read [] = tt
read_items-Linked read (n ∷ nodes) = (
  or_text-nil (FeedItem.link (read_fields read (child_nodes n) empty_item)) _,
  read_items-Linked read nodes,
)

AllLinked : Result (List FeedItem) → Type 0
AllLinked (ok items) = All Linked items
AllLinked (err text) = Unit

rss_of-AllLinked : (channel : Option XmlNode) → AllLinked (rss_of channel)
unfolding rss_of AllLinked
rss_of-AllLinked none = tt
rss_of-AllLinked (some channel) = read_items-Linked rss_field _

feed_of-AllLinked : (root : Result XmlNode) → AllLinked (feed_of root)
unfolding feed_of AllLinked parse_rss parse_atom
feed_of-AllLinked (err text) = tt
feed_of-AllLinked (ok root) =
    if-cases AllLinked (text_eq (local root) (codes "feed")) _ _
      (λ _. read_items-Linked atom_field _)
      (λ _.
        if-cases AllLinked
          (text_eq (local root) (codes "rss") || text_eq (local root) (codes "RDF")) _ _
          (λ _. rss_of-AllLinked (child (codes "channel") root)) (λ _. tt))

-- Whatever the decoder makes of a body, each item that parseFeed returns has a link if it has a GUID.
pub parse_feed-Linked :
    (decode : Text → Result XmlNode) (body : Text) (items : List FeedItem)
    → parse_feed decode body ≡ ok items
    → All (λ it. it.link ≡ [] → it.guid ≡ []) items
unfolding parse_feed AllLinked Linked
parse_feed-Linked decode body items h = subst AllLinked h (feed_of-AllLinked (decode body))
