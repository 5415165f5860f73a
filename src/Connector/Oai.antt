-- ===== src/Connector/Oai.antt =====
-- `parseOAI` of backend/internal/connector/oai.go. The error texts leave out the name of the root.
use cindex.Prelude.{
  Bool, true, false, Option, none, some, List, [], ◌∷◌, ◌++◌, if◌then◌else◌, Text, codes, text_eq,
  is_empty,
}
use cindex.Go.Errors.{Result, ok, err}
use cindex.Go.Strings.{trim_space}
use cindex.Domain.SearchJob.{lookup, insert}
use cindex.Connector.Xml.{XmlNode, local, child_nodes, attr, child, children, text}

pub record OaiRecord : Type 0 where
  pub datestamp : Text
  pub set_specs : List Text
  pub deleted : Bool
  pub fields : List (Text × List Text)
  pub field_order : List Text

abbrev pub empty_record : OaiRecord
empty_record = record {
  datestamp = [];
  set_specs = [];
  deleted = false;
  fields = [];
  field_order = [];
}

-- m[k], the nil slice if there is no such key.
unfoldable pub values : Text → List (Text × List Text) → List Text
unfolding lookup
values key m = elim (lookup key m) [ none ↦ [] | some vs ↦ vs ]

unfoldable pub push_field : Text → Text → OaiRecord → OaiRecord
unfolding values insert
push_field name t r = record r {
  fields = insert name (values name r.fields ++ t ∷ []) r.fields;
  field_order = r.field_order ++ name ∷ [];
}

-- One field of the metadata; an empty text is left out.
unfoldable pub add_field : XmlNode → OaiRecord → OaiRecord
unfolding push_field local text
add_field f r = let t = trim_space (text f) in if is_empty t then r else push_field (local f) t r

unfoldable pub add_fields : List XmlNode → OaiRecord → OaiRecord
unfolding add_field
add_fields [] r = r
add_fields (f ∷ fs) r = add_fields fs (add_field f r)

add_set_specs : List XmlNode → OaiRecord → OaiRecord
add_set_specs [] r = r
add_set_specs (ss ∷ specs) r =
    let t = text ss in
    add_set_specs specs (if is_empty t then r else record r { set_specs = r.set_specs ++ t ∷ [] })

set_datestamp : Option XmlNode → OaiRecord → OaiRecord
set_datestamp none r = r
set_datestamp (some ds) r = record r { datestamp = text ds }

set_deleted : XmlNode → OaiRecord → OaiRecord
set_deleted part r =
    if text_eq (attr (codes "status") part) (codes "deleted")
    then record r { deleted = true }
    else r

-- The two kinds of parts that are read.
unfoldable pub add_header : XmlNode → OaiRecord → OaiRecord
unfolding add_set_specs set_datestamp set_deleted attr child children text
add_header part r =
    add_set_specs (children (codes "setSpec") part)
      (set_datestamp (child (codes "datestamp") part) (set_deleted part r))

first_fields : List XmlNode → OaiRecord → OaiRecord
first_fields [] r = r
first_fields (dc ∷ rest) r = add_fields (child_nodes dc) r

unfoldable pub add_metadata : XmlNode → OaiRecord → OaiRecord
unfolding first_fields add_fields child_nodes
add_metadata part r = first_fields (child_nodes part) r

unfoldable pub add_parts : List XmlNode → OaiRecord → OaiRecord
unfolding add_header add_metadata local
add_parts [] r = r
add_parts (part ∷ parts) r = add_parts parts (
    if text_eq (local part) (codes "header")
    then add_header part r
    else if text_eq (local part) (codes "metadata")
    then add_metadata part r
    else r)

parse_records : List XmlNode → List OaiRecord
parse_records [] = []
parse_records (n ∷ nodes) = add_parts (child_nodes n) empty_record ∷ parse_records nodes

token_of : Option XmlNode → Text
token_of none = []
token_of (some rt) = text rt

parse_list : Option XmlNode → List OaiRecord × Text
parse_list none = ([], [])
parse_list (some list) = (
  parse_records (children (codes "record") list),
  token_of (child (codes "resumptionToken") list),
)

parse_root : Result XmlNode → Result (List OaiRecord × Text)
parse_root (err text) = err (codes "invalid XML: " ++ text)
parse_root (ok root) =
    if text_eq (local root) (codes "OAI-PMH")
    then ok (parse_list (child (codes "ListRecords") root))
    else err (codes "not an OAI-PMH response")

-- parseOAI, over the decoder: the records and the resumption token.
unfoldable pub parse_oai : (Text → Result XmlNode) → Text → Result (List OaiRecord × Text)
unfolding parse_root parse_list parse_records token_of add_parts child children child_nodes local
    text
parse_oai decode body = parse_root (decode body)

head_or_empty : List Text → Text
head_or_empty [] = []
head_or_empty (v ∷ vs) = v

-- first
unfoldable pub first : Text → OaiRecord → Text
unfolding values head_or_empty
first field r = head_or_empty (values field r.fields)
