-- ===== src/Connector/Feed.antt =====
-- `parseFeed` of backend/internal/connector/oai.go: RSS and Atom. The error texts leave out the name
-- of the root.
pub mod Links
use cindex.Prelude.{
  Bool, true, false, ◌||◌, Option, none, some, List, [], ◌∷◌, ◌++◌, if◌then◌else◌, Text, codes,
  text_eq, is_empty,
}
use cindex.Go.Errors.{Result, ok, err}
use cindex.Connector.Xml.{XmlNode, local, child_nodes, attr, child, children, text}

pub record FeedItem : Type 0 where
  pub title : Text
  pub link : Text
  pub description : Text
  pub pub_date : Text
  pub guid : Text
  pub creators : List Text

abbrev pub empty_item : FeedItem
empty_item = record {
  title = [];
  link = [];
  description = [];
  pub_date = [];
  guid = [];
  creators = [];
}

unfoldable pub or_text : Text → Text → Text
or_text [] other = other
or_text (c ∷ s) other = c ∷ s

unfoldable pub push_creator : Text → FeedItem → FeedItem
push_creator [] it = it
push_creator (c ∷ s) it = record it { creators = it.creators ++ (c ∷ s) ∷ [] }

-- One field of an RSS item.
unfoldable pub rss_field : XmlNode → FeedItem → FeedItem
unfolding push_creator local text
rss_field f it =
    let name = local f in
    if text_eq name (codes "title")
    then record it { title = text f }
    else if text_eq name (codes "link")
    then record it { link = text f }
    else if text_eq name (codes "description")
    then record it { description = text f }
    else if text_eq name (codes "pubDate") || text_eq name (codes "date")
    then record it { pub_date = text f }
    else if text_eq name (codes "guid")
    then record it { guid = text f }
    else if text_eq name (codes "creator") || text_eq name (codes "author")
    then push_creator (text f) it
    else it

creator_of : Option XmlNode → XmlNode → FeedItem → FeedItem
creator_of (some name) f it = record it { creators = it.creators ++ text name ∷ [] }
creator_of none f it = push_creator (text f) it

-- One field of an Atom entry.
unfoldable pub atom_field : XmlNode → FeedItem → FeedItem
unfolding or_text push_creator creator_of attr child local text
atom_field f it =
    let name = local f in
    if text_eq name (codes "title")
    then record it { title = text f }
    else if text_eq name (codes "summary") || text_eq name (codes "content")
    then record it { description = or_text it.description (text f) }
    else if text_eq name (codes "published")
        || text_eq name (codes "updated")
        || text_eq name (codes "modified")
    then record it { pub_date = or_text it.pub_date (text f) }
    else if text_eq name (codes "id")
    then record it { guid = text f }
    else if text_eq name (codes "link")
    then (if is_empty (attr (codes "rel") f) || text_eq (attr (codes "rel") f) (codes "alternate")
        then record it { link = attr (codes "href") f }
        else it)
    else if text_eq name (codes "author") || text_eq name (codes "creator")
    then creator_of (child (codes "name") f) f it
    else it

unfoldable pub read_fields : (XmlNode → FeedItem → FeedItem) → List XmlNode → FeedItem → FeedItem
read_fields read [] it = it
read_fields read (f ∷ fs) it = read_fields read fs (read f it)

-- The link is the GUID where there is no other.
unfoldable pub with_link : FeedItem → FeedItem
unfolding or_text
with_link it = record it { link = or_text it.link it.guid }

unfoldable pub read_items : (XmlNode → FeedItem → FeedItem) → List XmlNode → List FeedItem
unfolding read_fields with_link child_nodes
read_items read [] = []
read_items read (n ∷ nodes) =
    with_link (read_fields read (child_nodes n) empty_item) ∷ read_items read nodes

rss_of : Option XmlNode → Result (List FeedItem)
rss_of none = err (codes "rss without channel")
rss_of (some channel) = ok (read_items rss_field (children (codes "item") channel))

-- parseRSS
unfoldable pub parse_rss : XmlNode → Result (List FeedItem)
unfolding rss_of read_items rss_field child children
parse_rss root = rss_of (child (codes "channel") root)

-- parseAtom
unfoldable pub parse_atom : XmlNode → List FeedItem
unfolding read_items atom_field children
parse_atom root = read_items atom_field (children (codes "entry") root)

feed_of : Result XmlNode → Result (List FeedItem)
feed_of (err text) = err (codes "invalid XML: " ++ text)
feed_of (ok root) =
    if text_eq (local root) (codes "feed")
    then ok (parse_atom root)
    else if text_eq (local root) (codes "rss") || text_eq (local root) (codes "RDF")
    then parse_rss root
    else err (codes "not a feed")

-- parseFeed, over the decoder.
unfoldable pub parse_feed : (Text → Result XmlNode) → Text → Result (List FeedItem)
unfolding feed_of parse_atom parse_rss local
parse_feed decode body = feed_of (decode body)
