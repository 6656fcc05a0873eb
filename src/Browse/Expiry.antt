-- ===== src/Browse/Expiry.antt =====
-- browse.rs: the sessions that an expiry sweep keeps.
use Prim.Native.String.{String}
use opcda_bridge.Base.{
  ℕ, ◌≡◌, ◌↔◌, ◌≤◌, ◌+◌, some, arith, String-discrete, get-retain_entries, HasUniqueKeys,
}
use opcda_bridge.Browse.{Session, session_ttl}
use opcda_bridge.Browse.Calls.{Sessions, session}
use opcda_bridge.Browse.Manager.{is_alive, remove_expired}

-- The sweep at a time keeps exactly the sessions of the table that were used at most the time to
-- live before, unchanged.
pub remove_expired_lem :
    (now : ℕ) (m : Sessions) (id : String) (s : Session)
    → HasUniqueKeys String-discrete m
    → (session (remove_expired now m) id ≡ some s)
      ↔ ((session m id ≡ some s) × (now ≤ s.last_used + session_ttl))
unfolding remove_expired
remove_expired_lem now m id s u =
    let e = get-retain_entries String-discrete (λ _ t. is_alive now t) id m u in
    (λ h. ground (arith, e, h), λ (h, k). ground (arith, e, h, k))
