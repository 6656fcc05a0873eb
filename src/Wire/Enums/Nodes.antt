-- ===== src/Wire/Enums/Nodes.antt =====
-- crates/opcda-bridge-proto/proto/bridge.proto: the enumerations of browsing and searching.
use opcda_bridge.Base.{ℕ, ◌≡◌, refl, Option, none, some, ◌==◌, if◌then◌else◌}
use opcda_bridge.Compat.{Int32, nonneg, below}

pub data ProtoNamespaceOrganization : Type 0 where
  unspecified flat hierarchical : ProtoNamespaceOrganization

abbrev pub organization_number : ProtoNamespaceOrganization → ℕ
organization_number ProtoNamespaceOrganization.unspecified = 0
organization_number ProtoNamespaceOrganization.flat = 1
organization_number ProtoNamespaceOrganization.hierarchical = 2

unfoldable pub organization_of : Int32 → Option ProtoNamespaceOrganization
organization_of (below n) = none
organization_of (nonneg n) =
    if n == 0
    then some ProtoNamespaceOrganization.unspecified
    else if n == 1
    then some ProtoNamespaceOrganization.flat
    else if n == 2
    then some ProtoNamespaceOrganization.hierarchical
    else none

pub organization_of-number :
    (v : ProtoNamespaceOrganization) → organization_of (nonneg (organization_number v)) ≡ some v
unfolding organization_of
organization_of-number ProtoNamespaceOrganization.unspecified = refl
organization_of-number ProtoNamespaceOrganization.flat = refl
organization_of-number ProtoNamespaceOrganization.hierarchical = refl

pub data ProtoBrowseSource : Type 0 where
  unspecified da3 da2 flat derived : ProtoBrowseSource

abbrev pub source_number : ProtoBrowseSource → ℕ
source_number ProtoBrowseSource.unspecified = 0
source_number ProtoBrowseSource.da3 = 1
source_number ProtoBrowseSource.da2 = 2
source_number ProtoBrowseSource.flat = 3
source_number ProtoBrowseSource.derived = 4

unfoldable pub source_of : Int32 → Option ProtoBrowseSource
source_of (below n) = none
source_of (nonneg n) =
    if n == 0
    then some ProtoBrowseSource.unspecified
    else if n == 1
    then some ProtoBrowseSource.da3
    else if n == 2
    then some ProtoBrowseSource.da2
    else if n == 3
    then some ProtoBrowseSource.flat
    else if n == 4
    then some ProtoBrowseSource.derived
    else none

pub source_of-number : (v : ProtoBrowseSource) → source_of (nonneg (source_number v)) ≡ some v
unfolding source_of
source_of-number ProtoBrowseSource.unspecified = refl
source_of-number ProtoBrowseSource.da3 = refl
source_of-number ProtoBrowseSource.da2 = refl
source_of-number ProtoBrowseSource.flat = refl
source_of-number ProtoBrowseSource.derived = refl

pub data ProtoBrowseNodeKind : Type 0 where
  unspecified branch item branch_and_item : ProtoBrowseNodeKind

abbrev pub node_kind_number : ProtoBrowseNodeKind → ℕ
node_kind_number ProtoBrowseNodeKind.unspecified = 0
node_kind_number ProtoBrowseNodeKind.branch = 1
node_kind_number ProtoBrowseNodeKind.item = 2
node_kind_number ProtoBrowseNodeKind.branch_and_item = 3

unfoldable pub node_kind_of : Int32 → Option ProtoBrowseNodeKind
node_kind_of (below n) = none
node_kind_of (nonneg n) =
    if n == 0
    then some ProtoBrowseNodeKind.unspecified
    else if n == 1
    then some ProtoBrowseNodeKind.branch
    else if n == 2
    then some ProtoBrowseNodeKind.item
    else if n == 3
    then some ProtoBrowseNodeKind.branch_and_item
    else none

pub node_kind_of-number :
    (v : ProtoBrowseNodeKind) → node_kind_of (nonneg (node_kind_number v)) ≡ some v
unfolding node_kind_of
node_kind_of-number ProtoBrowseNodeKind.unspecified = refl
node_kind_of-number ProtoBrowseNodeKind.branch = refl
node_kind_of-number ProtoBrowseNodeKind.item = refl
node_kind_of-number ProtoBrowseNodeKind.branch_and_item = refl

pub data ProtoSearchMatchMode : Type 0 where
  unspecified exact prefix contains : ProtoSearchMatchMode

abbrev pub match_mode_number : ProtoSearchMatchMode → ℕ
match_mode_number ProtoSearchMatchMode.unspecified = 0
match_mode_number ProtoSearchMatchMode.exact = 1
match_mode_number ProtoSearchMatchMode.prefix = 2
match_mode_number ProtoSearchMatchMode.contains = 3

unfoldable pub match_mode_of : Int32 → Option ProtoSearchMatchMode
match_mode_of (below n) = none
match_mode_of (nonneg n) =
    if n == 0
    then some ProtoSearchMatchMode.unspecified
    else if n == 1
    then some ProtoSearchMatchMode.exact
    else if n == 2
    then some ProtoSearchMatchMode.prefix
    else if n == 3
    then some ProtoSearchMatchMode.contains
    else none

pub match_mode_of-number :
    (v : ProtoSearchMatchMode) → match_mode_of (nonneg (match_mode_number v)) ≡ some v
unfolding match_mode_of
match_mode_of-number ProtoSearchMatchMode.unspecified = refl
match_mode_of-number ProtoSearchMatchMode.exact = refl
match_mode_of-number ProtoSearchMatchMode.prefix = refl
match_mode_of-number ProtoSearchMatchMode.contains = refl
