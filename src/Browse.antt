-- ===== src/Browse.antt =====
-- crates/opcda-bridge-gateway/src/browse.rs: a browse session with its bounded caches. The
-- native client's identifiers, and the tokens that the gateway makes, are native strings.
pub mod Sessions
pub mod Calls
pub mod Locks
pub mod Manager
pub mod Caches
pub mod Refresh
pub mod Pages
pub mod Expiry
pub mod Kept
pub mod Capacity
mod Tests
use Prim.Native.String.{String}
use opcda_bridge.Base.{ℕ, Bool, Option, List, ℕ_discrete, String-discrete}

abbrev pub default_page_size : ℕ
default_page_size = 200

abbrev pub max_page_size : ℕ
max_page_size = 1_000

abbrev pub max_active_sessions : ℕ
max_active_sessions = 128

-- SESSION_TTL, in nanoseconds.
abbrev pub session_ttl : ℕ
session_ttl = 60_000_000_000

abbrev pub max_cached_pages_per_session : ℕ
max_cached_pages_per_session = 256

abbrev pub max_node_bindings_per_session : ℕ
max_node_bindings_per_session = 100_000

abbrev pub max_page_bindings_per_session : ℕ
max_page_bindings_per_session = 256

pub data BrowseNodeKind : Type 0 where
  branch item branch_and_item : BrowseNodeKind

pub data NamespaceOrganization : Type 0 where
  unspecified_organization flat hierarchical : NamespaceOrganization

pub data BrowseSource : Type 0 where
  unspecified_source da3 da2 flat_source derived : BrowseSource

pub record BrowseNode : Type 0 where
  pub node_key : String
  pub display_name : String
  pub kind : BrowseNodeKind
  pub item_id : Option String

pub record BrowsePage : Type 0 where
  pub nodes : List BrowseNode
  pub next_page_token : Option String
  pub complete : Bool
  pub organization : NamespaceOrganization
  pub source : BrowseSource
  pub warning : Option String

pub record PageKey : Type 0 where
  pub parent_node_key : Option String
  pub page_token : Option String
  pub page_size : ℕ

pub Parent-discrete : Discrete (Option String)
Parent-discrete = hlevel String-discrete

pub PageKey-discrete : Discrete PageKey
PageKey-discrete = hlevel (ℕ_discrete, String-discrete)

pub record PageBinding : Type 0 where
  pub native_page_token : String
  pub parent_node_key : Option String
  pub page_size : ℕ

-- The operation lock is not part of the record: a call runs alone in the model.
pub record Session : Type 0 where
  pub server : String
  pub native_session_id : String
  pub last_used : ℕ
  pub node_bindings : List (String × String)
  pub page_bindings : List (String × PageBinding)
  pub page_binding_order : List String
  pub pages : List (PageKey × BrowsePage)
  pub page_order : List PageKey

-- tonic::Status, a constructor for each message of the file; `unavailable` carries the native
-- client's message.
pub data Status : Type 0 where
  session_not_found session_closed parent_not_found : Status
  other_server invalid_page_token other_page_size other_parent : Status
  too_many_sessions too_many_nodes : Status
  refresh_with_token page_size_too_large : Status
  complete_with_token incomplete_without_token : Status
  unavailable : String → Status

pub data Result {ℓ} (A : Type ℓ) : Type ℓ where
  ok : A → Result A
  err : Status → Result A

infixl 5 ◌>>=◌
abbrev pub ◌>>=◌ {ℓ κ} : {A : Type ℓ} {B : Type κ} → Result A → (A → Result B) → Result B
ok a >>= f = f a
err e >>= f = err e
