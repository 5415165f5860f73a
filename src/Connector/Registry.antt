-- ===== src/Connector/Registry.antt =====
-- `NewConnector` and `Registry` of backend/internal/connector/registry.go: which connector a source key
-- builds.
pub mod Known
use cindex.Prelude.{Bool, true, false, Option, none, some, List, [], ◌∷◌, Text, codes}
use cindex.Domain.SearchJob.{lookup}
use cindex.Connector.Profile.{keys}

-- The connectors, with the settings that two keys share a type by.
pub data ConnectorKind : Type 0 where
  -- europePMC, and whether it asks for open access only.
  europe_pmc : Bool → ConnectorKind
  -- openalex with its host filter.
  openalex : Text → ConnectorKind
  crossref pubmed arxiv doaj core dblp hal zenodo iacr exa : ConnectorKind
  -- htmlConnector, which dispatches by its key.
  html : ConnectorKind

-- The cases of the switch, in order.
abbrev pub connectors : List (Text × ConnectorKind)
connectors =
    (codes "europe_pmc", europe_pmc false)
    ∷ (codes "openalex", openalex [])
    ∷ (codes "crossref", crossref)
    ∷ (codes "pubmed", pubmed)
    ∷ (codes "arxiv", arxiv)
    ∷ (codes "doaj", doaj)
    ∷ (codes "pmc", europe_pmc true)
    ∷ (codes "core", core)
    ∷ (codes "dblp", dblp)
    ∷ (codes "hal", hal)
    ∷ (codes "zenodo", zenodo)
    ∷ (codes "iacr", iacr)
    ∷ (codes "exa", exa)
    ∷ (codes "medknow", openalex (codes "P4310324488"))
    ∷ (codes "cinii", html)
    ∷ (codes "sciengine", html)
    ∷ (codes "cyberleninka", html)
    ∷ (codes "mathnet", html)
    ∷ (codes "scielo", html)
    ∷ (codes "persee", html)
    ∷ (codes "openedition", html)
    ∷ (codes "dergipark", html)
    ∷ (codes "hrcak", html)
    ∷ (codes "ajol", html)
    ∷ []

-- NewConnector
unfoldable pub new_connector : Text → Option ConnectorKind
unfolding lookup
new_connector source_key = lookup source_key connectors

push_known : Option ConnectorKind → Text → List (Text × ConnectorKind) → List (Text × ConnectorKind)
push_known none key rest = rest
push_known (some c) key rest = (key, c) ∷ rest

known : List Text → List (Text × ConnectorKind)
known [] = []
known (key ∷ rest) = push_known (new_connector key) key (known rest)

-- Registry.All: the connectors with their keys.
unfoldable pub all : List (Text × ConnectorKind)
unfolding known push_known keys
all = known keys
