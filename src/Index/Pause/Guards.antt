-- ===== src/Index/Pause/Guards.antt =====
-- The invariant of the foreground guards of index/status.rs, and what keeps it.
use Prim.Native.String.{String}
use opcda_bridge.Base.{
  ℕ, ◌<◌, ◌≡◌, ◌≢◌, ◌⊎◌, ap, sym, ◌∙◌, true, some, arith, ite, Option-cases, inl, inr,
  String-discrete, get, is_some, unwrap_or,
}
use opcda_bridge.Index.{RuntimeBuild, Manager, PauseOverlayState, build_of, mapped}
use opcda_bridge.Index.Pause.{pause_reason_of, overlay_of, reconcile_pause_state, users_of}
use opcda_bridge.Index.Pause.Reconcile.{settled, build_of-reconcile, users-reconcile}

-- For the live guards `live` of each server: the manager counts them, in its map and in each build.
pub record Inv (live : String → ℕ) (m : Manager) : Type 0 where
  pub counts : (t : String) → users_of t m ≡ live t
  pub seen :
      (t : String) (b : RuntimeBuild) → build_of t m.runtime ≡ some b → b.foreground_users ≡ live t

pub pause_reason-foreground :
    (now : ℕ) (o : PauseOverlayState) (b : RuntimeBuild)
    → 0 < b.foreground_users
    → is_some (pause_reason_of now o b) ≡ true
unfolding pause_reason_of
pause_reason-foreground now o b h = ground arith

-- A change of the counts and of one build keeps the invariant once it is reconciled.
module _ (now : ℕ) (s : String) (live live' : String → ℕ) (m m' : Manager)
    (f : RuntimeBuild → RuntimeBuild) (i : Inv live m)
    (runs : (t : String)
      → build_of t m'.runtime
        ≡ ite (String-discrete s t) (mapped f (build_of s m.runtime)) (build_of t m.runtime))
    (counted : (t : String) → users_of t m' ≡ live' t)
    (others : (t : String) → s ≢ t → live' t ≡ live t)
    (users_set : (b : RuntimeBuild)
      → b.foreground_users ≡ live s
      → (f b).foreground_users ≡ live' s) where
  -- The build of a server afterwards, from the one before.
  build_after :
      (t : String)
      → build_of t (reconcile_pause_state now s m').runtime
        ≡ ite
            (String-discrete s t)
            (mapped (λ b. settled now (overlay_of s m') (f b)) (build_of s m.runtime))
            (build_of t m.runtime)
  build_after t =
      rw (build_of-reconcile now s t m', runs s, runs t)
        (elim (Option-cases (build_of s m.runtime)) [
          | inl e ↦ ground arith
          | inr (b, e) ↦ ground arith
        ])

  -- A build afterwards is the changed one, or an untouched one of another server.
  cases_after :
      (t : String) (b' : RuntimeBuild)
      → build_of t (reconcile_pause_state now s m').runtime ≡ some b'
      → ((b : RuntimeBuild) × (s ≡ t)
          × (build_of s m.runtime ≡ some b)
          × (b' ≡ settled now (overlay_of s m') (f b)))
        ⊎ ((s ≢ t) × (build_of t m.runtime ≡ some b'))
  cases_after t b' h = elim (Option-cases (build_of s m.runtime)) [
    | inl e ↦ inr ((λ p. ground (arith, build_after t)), ground (arith, build_after t))
    | inr (b, e) ↦ elim (String-discrete s t) [
      | yes p ↦ inl (b, p, e, ground (arith, build_after t))
      | no n ↦ inr (n, ground (arith, build_after t))
    ]
  ]

  pub reconciled-Inv : Inv live' (reconcile_pause_state now s m')
  reconciled-Inv = record {
    counts = λ t.
        ap (λ users. unwrap_or (get String-discrete t users) 0) (users-reconcile now s m')
        ∙ counted t;
    seen = λ t b' h. elim (cases_after t b' h) [
      | inl (b, p, before, is) ↦ ground (arith, users_set b (i.seen s b before))
      | inr (n, before) ↦ i.seen t b' before ∙ sym (others t n)
    ];
  }
