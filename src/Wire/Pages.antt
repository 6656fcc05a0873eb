-- ===== src/Wire/Pages.antt =====
-- A browse page of the gateway as the client library reads it, from BrowseManager::browse on.
use Prim.Native.String.{String}
use opcda_bridge.Base.{
  ℕ, ◌≡◌, refl, Bool, not, ◌||◌, Option, List, [], ◌∷◌, map, arith, all, is_some, if◌then◌else◌,
}
use opcda_bridge.Compat.{nonneg}
use opcda_bridge.Browse.{
  NamespaceOrganization, BrowseSource, BrowseNodeKind, BrowseNode, BrowsePage, ok as answered,
  err as refused,
}
use opcda_bridge.Browse as Gateway
use opcda_bridge.Browse.Calls.{Sessions, Surroundings}
use opcda_bridge.Browse.Manager.{browse}
use opcda_bridge.Browse.Caches.{IsConsistent}
use opcda_bridge.Browse.Kept.{TableInv, Keeps}
use opcda_bridge.Browse.Capacity.{OthersKeep, calls_keep_table}
use opcda_bridge.Wire.Library as Library
use opcda_bridge.Wire.Gateway.{
  map_namespace_organization, map_browse_source, map_node_kind, map_browse_node, map_browse_page,
  item_id_of,
}
use opcda_bridge.Wire.Enums.{
  organization_number, source_number, node_kind_number, organization_of, source_of, node_kind_of,
}
use opcda_bridge.Wire.Read.{
  Result, ok, err, selectable_without_item_id, collect, organization, source, node_kind,
}
use opcda_bridge.Wire.Convert.{convert_node, convert_page}

-- The client's names of the gateway's values.
abbrev pub client_organization : NamespaceOrganization → Library.NamespaceOrganization
client_organization NamespaceOrganization.unspecified_organization =
    Library.NamespaceOrganization.unspecified
client_organization NamespaceOrganization.flat = Library.NamespaceOrganization.flat
client_organization NamespaceOrganization.hierarchical = Library.NamespaceOrganization.hierarchical

abbrev pub client_source : BrowseSource → Library.BrowseSource
client_source BrowseSource.unspecified_source = Library.BrowseSource.unspecified
client_source BrowseSource.da3 = Library.BrowseSource.da3
client_source BrowseSource.da2 = Library.BrowseSource.da2
client_source BrowseSource.flat_source = Library.BrowseSource.flat
client_source BrowseSource.derived = Library.BrowseSource.derived

abbrev pub client_kind : BrowseNodeKind → Library.BrowseNodeKind
client_kind BrowseNodeKind.branch = Library.BrowseNodeKind.branch
client_kind BrowseNodeKind.item = Library.BrowseNodeKind.item
client_kind BrowseNodeKind.branch_and_item = Library.BrowseNodeKind.branch_and_item

-- The node as the client has it: the ItemID of a branch is left out.
abbrev pub client_node : BrowseNode → Library.BrowseNode
client_node node = record {
  node_key = node.node_key;
  display_name = node.display_name;
  kind = client_kind node.kind;
  item_id = item_id_of node.kind node.item_id;
}

abbrev pub client_page : String → BrowsePage → Library.BrowsePage
client_page id page = record {
  session_id = id;
  nodes = map client_node page.nodes;
  next_page_token = page.next_page_token;
  complete = page.complete;
  organization = client_organization page.organization;
  source = client_source page.source;
  warning = page.warning;
}

-- A node that can be selected has an ItemID.
abbrev pub is_named : BrowseNode → Bool
is_named node = not (Library.is_item (client_kind node.kind)) || is_some node.item_id

pub organization_lem :
    (o : NamespaceOrganization)
    → organization (nonneg (organization_number (map_namespace_organization o)))
      ≡ ok (client_organization o)
unfolding organization organization_of map_namespace_organization
organization_lem NamespaceOrganization.unspecified_organization = refl
organization_lem NamespaceOrganization.flat = refl
organization_lem NamespaceOrganization.hierarchical = refl

pub source_lem :
    (s : BrowseSource)
    → source (nonneg (source_number (map_browse_source s))) ≡ ok (client_source s)
unfolding source source_of map_browse_source
source_lem BrowseSource.unspecified_source = refl
source_lem BrowseSource.da3 = refl
source_lem BrowseSource.da2 = refl
source_lem BrowseSource.flat_source = refl
source_lem BrowseSource.derived = refl

node_kind_lem :
    (k : BrowseNodeKind)
    → node_kind (nonneg (node_kind_number (map_node_kind k))) ≡ ok (client_kind k)
unfolding node_kind node_kind_of map_node_kind
node_kind_lem BrowseNodeKind.branch = refl
node_kind_lem BrowseNodeKind.item = refl
node_kind_lem BrowseNodeKind.branch_and_item = refl

abbrev checked : {A : Type 0} → Bool → A → Result A
checked named a = if named then ok a else err selectable_without_item_id

pub convert_node-map :
    (node : BrowseNode)
    → convert_node (map_browse_node node) ≡ checked (is_named node) (client_node node)
unfolding convert_node map_browse_node
convert_node-map node = rw (node_kind_lem node.kind) (ground arith)

pub collect-map :
    (nodes : List BrowseNode)
    → collect convert_node (map map_browse_node nodes)
      ≡ checked (all is_named nodes) (map client_node nodes)
unfolding collect all
collect-map [] = refl
collect-map (node ∷ nodes) = rw (convert_node-map node, collect-map nodes) (ground arith)

-- The answer to a request of a page, as the client reads it.
abbrev Accepted : String → BrowsePage → Type 0
Accepted id page =
    convert_page (map_browse_page id page) ≡ checked (all is_named page.nodes) (client_page id page)

convert_page-map : (id : String) (page : BrowsePage) → IsConsistent page → Accepted id page
unfolding convert_page map_browse_page
convert_page-map id page c =
    rw (collect-map page.nodes, organization_lem page.organization, source_lem page.source)
      (ground arith)

module _ (env : Surroundings) (others : OthersKeep env) (m : Sessions) (i : TableInv m)
    (server : String) (id parent token : Option String) (page_size : ℕ) (refresh : Bool)
    (session_id : String) (page : BrowsePage) where
  -- Whatever the native client answers and other calls do meanwhile, if these keep the table well: a
  -- page that `browse` answers with reaches the client as the same page, with its nodes in order and
  -- without ItemIDs of branches, if each node that can be selected has an ItemID; else the client
  -- reports that one has none. It is never refused for its token or its completeness.
  pub browse-client_page :
      (browse env server id parent token page_size refresh m).1 ≡ answered (session_id, page)
      → convert_page (map_browse_page session_id page) ≡ (
          if all is_named page.nodes
          then ok (client_page session_id page)
          else err selectable_without_item_id)
  browse-client_page h = convert_page-map session_id page (
      answer-consistent _ h
        ((calls_keep_table env others m i).0 server id parent token page_size refresh))
    where
      answer-consistent :
          (r : Sessions × Gateway.Result (String × BrowsePage))
          → r.1 ≡ answered (session_id, page)
          → Keeps (λ a. IsConsistent a.1) r
          → IsConsistent page
      answer-consistent (t, answered a) e k = ground arith
      answer-consistent (t, refused x) e k = ground arith
