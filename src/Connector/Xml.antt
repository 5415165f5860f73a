-- ===== src/Connector/Xml.antt =====
-- The XML tree of backend/internal/connector/oai.go. The decoder of encoding/xml is a parameter of the
-- parsers; a node shows the local names.
use cindex.Prelude.{
  List, [], ◌∷◌, ◌++◌, if◌then◌else◌, Text, text_eq, Option, none, some, is_empty, Bool, true,
  false, not, ◌&&◌,
}
use cindex.Go.Strings.{trim_space}

-- xmlNode: its local name, its attributes, its own text and its children.
mutual
  pub data XmlNode : Type 0 where
    node : Text → List (Text × Text) → Text → XmlNodes → XmlNode

  pub data XmlNodes : Type 0 where
    no_nodes : XmlNodes
    add_node : XmlNode → XmlNodes → XmlNodes

unfoldable pub local : XmlNode → Text
local (node name attrs text nodes) = name

unfoldable pub own_text : XmlNode → Text
own_text (node name attrs text nodes) = text

list_of : XmlNodes → List XmlNode
list_of no_nodes = []
list_of (add_node n nodes) = n ∷ list_of nodes

unfoldable pub child_nodes : XmlNode → List XmlNode
unfolding list_of
child_nodes (node name attrs text nodes) = list_of nodes

value_of : Text → List (Text × Text) → Text
value_of name [] = []
value_of name ((k, v) ∷ attrs) = if text_eq k name then v else value_of name attrs

-- attr
unfoldable pub attr : Text → XmlNode → Text
unfolding value_of
attr key (node name attrs text nodes) = value_of key attrs

find_local : Text → List XmlNode → Option XmlNode
find_local name [] = none
find_local name (n ∷ nodes) = if text_eq (local n) name then some n else find_local name nodes

-- child
unfoldable pub child : Text → XmlNode → Option XmlNode
unfolding find_local local child_nodes
child name n = find_local name (child_nodes n)

filter_local : Text → List XmlNode → List XmlNode
filter_local name [] = []
filter_local name (n ∷ nodes) =
    let rest = filter_local name nodes in if text_eq (local n) name then n ∷ rest else rest

-- children
unfoldable pub children : Text → XmlNode → List XmlNode
unfolding filter_local local child_nodes
children name n = filter_local name (child_nodes n)

is_leaf : XmlNode → Bool
is_leaf (node name attrs text no_nodes) = true
is_leaf (node name attrs text (add_node n nodes)) = false

-- writeText, as the text that it appends.
mutual
  write_text : XmlNode → Text
  write_text (node name attrs text nodes) = text ++ write_children nodes

  write_children : XmlNodes → Text
  write_children no_nodes = []
  write_children (add_node n nodes) =
      (if is_leaf n && not (is_empty (own_text n)) then own_text n ++ (10 ∷ []) else write_text n)
      ++ write_children nodes

-- text
unfoldable pub text : XmlNode → Text
unfolding write_text is_leaf own_text
text n = trim_space (write_text n)
