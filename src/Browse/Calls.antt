-- ===== src/Browse/Calls.antt =====
-- browse.rs: the table of sessions, what a call of BrowseManager uses of the rest of the gateway,
-- and calls that change the table.
use Prim.Native.String.{String}
use opcda_bridge.Base.{ℕ, Bool, Option, none, some, List, String-discrete, get, insert}
use opcda_bridge.Browse.{BrowsePage, Session, Status, unavailable, Result, ok, err}

-- The calls of OpcClient that the manager makes; an error is its message.
pub data Answer {ℓ} (A : Type ℓ) : Type ℓ where
  answers : A → Answer A
  fails : String → Answer A

pub record OpcClient : Type 0 where
  pub open_browse_session : String → Answer String
  pub browse_page : String → Option String → Option String → ℕ → Bool → Answer BrowsePage
  pub close_browse_session : String → Answer (Unit {0})

abbrev pub operation_result {ℓ} : {A : Type ℓ} → Answer A → Result A
operation_result (answers a) = ok a
operation_result (fails message) = err (unavailable message)

abbrev pub Sessions : Type 0
Sessions = List (String × Session)

abbrev pub session : Sessions → String → Option Session
session m id = get String-discrete id m

abbrev pub put : String → Session → Sessions → Sessions
put = insert String-discrete

-- What a call sees of the rest of the gateway: the client, the times at which it takes the lock,
-- its new tokens, and what other calls do to the table between its locks.
pub record Surroundings : Type 0 where
  pub client : OpcClient
  pub clock : ℕ → ℕ
  pub session_token : String
  pub fresh : ℕ → String
  pub others : ℕ → Sessions → Sessions

-- A call changes the table whether it answers or fails.
abbrev pub Call : Type 0 → Type 0
Call A = Sessions → Sessions × Result A

abbrev pub continue : {A B : Type 0} → (A → Call B) → Sessions × Result A → Sessions × Result B
continue f (m, ok a) = f a m
continue f (m, err e) = (m, err e)

infixl 5 ◌and_then◌
abbrev pub ◌and_then◌ : {A B : Type 0} → Call A → (A → Call B) → Call B
(c and_then f) m = continue f (c m)

abbrev pub lift : {A : Type 0} → Result A → Call A
lift r m = (m, r)

-- The session under the lock; without one the call fails.
abbrev pub update :
    {A : Type 0}
    → String
    → Sessions
    → Option Session
    → Status
    → (Session → Session × Result A)
    → Sessions × Result A
update id m none e f = (m, err e)
update id m (some s) e f = (put id (f s).0 m, (f s).1)

abbrev pub with_session : {A : Type 0} → Status → String → (Session → Session × Result A) → Call A
with_session e id f m = update id m (session m id) e f
