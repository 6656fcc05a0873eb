-- ===== src/Live/Events.antt =====
-- What a search sends to its client.
use Prim.Native.String.{String}
use opcda_bridge.Base.{
  ℕ, ◌+◌, ◌≤◌, ◌<◌, ◌≡◌, refl, ◌⊎◌, inl, inr, Bool, true, false, not, ◌&&◌, Option, none, some,
  List, [], ◌∷◌, ◌++◌, arith, if◌then◌else◌, String-discrete, member, IsUnique, Bool-cases,
}
use mathlib.Core.List.{append-nil, append_assoc}
use opcda_bridge.Wire.Messages.{ProtoBrowseNode, ProtoEvent, found, completed}
use opcda_bridge.Live.{SearchContext, Given, Step, continue, stop, out_of_fuel, failed}
use opcda_bridge.Live.Loops.{
  is_open, sending, send, completion, complete_with, continuing, progress_of,
}

abbrev pub listed : Option String → List String
listed none = []
listed (some id) = id ∷ []

abbrev pub id_list : Option ProtoBrowseNode → List String
id_list none = []
id_list (some node) = listed node.item_id

abbrev ids_of : ProtoEvent → List String
ids_of (found m) = id_list m.node
ids_of _ = []

-- The ItemIDs of the matches sent, in their order, and the number of the matches.
unfoldable pub item_ids : List ProtoEvent → List String
item_ids [] = []
item_ids (e ∷ es) = ids_of e ++ item_ids es

abbrev pub is_found : ProtoEvent → Bool
is_found (found m) = true
is_found _ = false

unfoldable pub founds : List ProtoEvent → ℕ
founds [] = 0
founds (e ∷ es) = (if is_found e then 1 else 0) + founds es

abbrev pub is_completed : ProtoEvent → Bool
is_completed (completed c) = true
is_completed _ = false

unfoldable pub no_completed : List ProtoEvent → Bool
no_completed [] = true
no_completed (e ∷ es) = not (is_completed e) && no_completed es

-- Whether the last event, and no other, is a completion.
unfoldable pub is_ended : List ProtoEvent → Bool
unfolding no_completed
is_ended [] = false
is_ended (e ∷ []) = is_completed e
is_ended (e ∷ f ∷ es) = not (is_completed e) && is_ended (f ∷ es)

pub founds-snoc :
    (e : ProtoEvent) (es : List ProtoEvent)
    → founds (es ++ e ∷ []) ≡ founds es + (if is_found e then 1 else 0)
unfolding founds
founds-snoc e [] = ground arith
founds-snoc e (x ∷ es) = omega (arith, founds-snoc e es)

pub item_ids-snoc :
    (e : ProtoEvent) (es : List ProtoEvent) → item_ids (es ++ e ∷ []) ≡ item_ids es ++ ids_of e
unfolding item_ids
item_ids-snoc e [] = simp append-nil
item_ids-snoc e (x ∷ es) = rw (item_ids-snoc e es) (simp append_assoc)

pub no_completed-snoc :
    (e : ProtoEvent) (es : List ProtoEvent)
    → no_completed (es ++ e ∷ []) ≡ (no_completed es && not (is_completed e))
unfolding no_completed
no_completed-snoc e [] = ground arith
no_completed-snoc e (x ∷ es) = rw (no_completed-snoc e es) (ground arith)

is_ended-snoc :
    (e : ProtoEvent) (es : List ProtoEvent)
    → is_completed e ≡ true
    → no_completed es ≡ true
    → is_ended (es ++ e ∷ []) ≡ true
unfolding no_completed is_ended
is_ended-snoc e [] c n = c
is_ended-snoc e (x ∷ []) c n = ground arith
is_ended-snoc e (x ∷ y ∷ es) c n = ground (arith, is_ended-snoc e (y ∷ es) c)

module _ (given : Given) where
  -- At most as many matches as asked for, of different items.
  pub record IsFine (es : List ProtoEvent) : Type 0 where
    pub bounded : founds es ≤ given.max_results
    pub unique : IsUnique String-discrete (item_ids es)

  -- While the search goes on.
  pub record Going (c : SearchContext) : Type 0 where
    pub fine : IsFine c.sent
    pub open_ended : no_completed c.sent ≡ true
    pub counted : founds c.sent ≡ c.state.matches
    pub below : c.state.matches < given.max_results
    pub covered :
        (id : String)
        → member String-discrete id (item_ids c.sent) ≡ true
        → member String-discrete id c.state.matched_item_ids ≡ true

  -- A search that stops has sent a completion as its last event, or the client has closed the stream.
  abbrev pub Outcome : SearchContext × Step → Type 0
  Outcome (c, continue) = Going c
  Outcome (c, stop) =
      IsFine c.sent
      × ((is_ended c.sent ≡ true) ⊎ ((no_completed c.sent ≡ true) × (is_open given c ≡ false)))
  Outcome (c, out_of_fuel) = IsFine c.sent × (no_completed c.sent ≡ true)
  Outcome (c, failed e) = IsFine c.sent × (no_completed c.sent ≡ true)

  pub continuing-Outcome :
      (r : SearchContext × Step) (next : SearchContext → SearchContext × Step)
      → Outcome r
      → ((d : SearchContext) → Going d → Outcome (next d))
      → Outcome (continuing given r next)
  continuing-Outcome (c, continue) next o k = k c o
  continuing-Outcome (c, stop) next o k = o
  continuing-Outcome (c, out_of_fuel) next o k = o
  continuing-Outcome (c, failed e) next o k = o

  -- An event that is no match is fine.
  plain-IsFine :
      (e : ProtoEvent) (es : List ProtoEvent)
      → is_found e ≡ false
      → ids_of e ≡ []
      → IsFine es
      → IsFine (es ++ e ∷ [])
  plain-IsFine e es n i f = record {
    bounded = ground (arith, founds-snoc e es, f.bounded);
    unique = rw (item_ids-snoc e es, i, append-nil) f.unique;
  }

  pub complete_with-Outcome :
      (complete truncated : Bool) (warning : Option String) (c : SearchContext)
      → IsFine c.sent
      → no_completed c.sent ≡ true
      → Outcome (complete_with given complete truncated warning c)
  complete_with-Outcome complete truncated warning c f n =
      let e = completion complete truncated warning in
      elim (Bool-cases (is_open given c)) [
        | inl h ↦ rw h (plain-IsFine e c.sent refl refl f, inl (is_ended-snoc e c.sent refl n))
        | inr h ↦ rw h (f, n)
      ]

  pub progress-Outcome :
      (partial : Bool) (c : SearchContext)
      → Going c
      → Outcome (send given (progress_of given c.state partial) c (λ d. (d, continue)) (c, stop))
  progress-Outcome partial c g =
      let e = progress_of given c.state partial in
      let sent : Going (sending e c) = record {
        fine = plain-IsFine e c.sent refl refl g.fine;
        open_ended = rw (no_completed-snoc e c.sent) (ground (arith, g.open_ended));
        counted = ground (arith, founds-snoc e c.sent, g.counted);
        below = g.below;
        covered = λ id. rw (item_ids-snoc e c.sent, append-nil) (g.covered id);
      } in
      elim (Bool-cases (is_open given c)) [
        | inl h ↦ rw h sent
        | inr h ↦ rw h (g.fine, inr (g.open_ended, h))
      ]
