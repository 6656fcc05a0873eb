-- ===== src/Base/Maps.antt =====
-- Hash maps as association lists over keys with a decidable equality, and their eviction in the
-- order of a queue.
use Prim.Native.Nat.{ℕ, suc, ◌+◌, ◌-◌, ◌≤◌}
use Prim.Native.String.{String}
use text.Mathlib.Text.{◌==◌ as str_eq}
use text.Mathlib.TextEquality.{eq_iff}
use mathlib.Core.Path.{◌≡◌, refl}
use mathlib.Core.Logic.{◌↔◌, ite, inl, inr}
use mathlib.Core.List.{List, [], ◌∷◌}
use mathlib.Core.Bool.{Bool, true, false, false≢true}
use mathlib.Core.Option.{Option, none, some}
use native.Mathlib.Omega.{arith}
use opcda_bridge.Base.Tests.{is_some, if◌then◌else◌, ltb, ltb→lt, Bool-cases}
use opcda_bridge.Base.Queues.{member, IsUnique}
use opcda_bridge.Base.Lists.{length, drop}

abbrev dec_of {ℓ} : {P : Type ℓ} (b : Bool) → ((b ≡ true) ↔ P) → Dec P
dec_of true h = yes (h.0 refl)
dec_of false h = no (λ p. false≢true (h.1 p))

unfoldable pub String-discrete : Discrete String
String-discrete a b = dec_of (str_eq a b) (eq_iff a b)

module _ {K V : Type 0} (dec : Discrete K) where
  unfoldable pub get : K → List (K × V) → Option V
  get k [] = none
  get k ((j, v) ∷ m) = ite (dec j k) (some v) (get k m)

  unfoldable pub insert : K → V → List (K × V) → List (K × V)
  insert k v [] = (k, v) ∷ []
  insert k v ((j, w) ∷ m) = ite (dec j k) ((k, v) ∷ m) ((j, w) ∷ insert k v m)

  unfoldable pub remove : K → List (K × V) → List (K × V)
  remove k [] = []
  remove k ((j, w) ∷ m) = ite (dec j k) (remove k m) ((j, w) ∷ remove k m)

  unfoldable pub retain_keys : (K → Bool) → List (K × V) → List (K × V)
  retain_keys p [] = []
  retain_keys p ((j, w) ∷ m) = if p j then (j, w) ∷ retain_keys p m else retain_keys p m

  pub get-insert :
      (k j : K) (v : V) (m : List (K × V)) → get j (insert k v m) ≡ ite (dec k j) (some v) (get j m)
  unfolding get insert
  get-insert k j v [] = ground arith
  get-insert k j v ((i, w) ∷ m) = ground (arith, get-insert k j v m)

  pub get-remove : (k j : K) (m : List (K × V)) → get j (remove k m) ≡ ite (dec k j) none (get j m)
  unfolding get remove
  get-remove k j [] = ground arith
  get-remove k j ((i, w) ∷ m) = ground (arith, get-remove k j m)

  pub get-retain_keys :
      (p : K → Bool) (j : K) (m : List (K × V))
      → get j (retain_keys p m) ≡ (if p j then get j m else none)
  unfolding get retain_keys
  get-retain_keys p j [] = ground arith
  get-retain_keys p j ((i, w) ∷ m) = ground (arith, get-retain_keys p j m)

  pub length-insert-le : (k : K) (v : V) (m : List (K × V)) → length (insert k v m) ≤ length m + 1
  unfolding insert
  length-insert-le k v [] = omega arith
  length-insert-le k v ((j, w) ∷ m) = ground (arith, length-insert-le k v m)

  -- `HashMap::retain` with a test of the key and the value.
  unfoldable pub retain_entries : (K → V → Bool) → List (K × V) → List (K × V)
  retain_entries p [] = []
  retain_entries p ((j, w) ∷ m) = if p j w then (j, w) ∷ retain_entries p m else retain_entries p m

  abbrev pub HasUniqueKeys : List (K × V) → Type 0
  HasUniqueKeys [] = Unit {0}
  HasUniqueKeys ((j, w) ∷ m) = (get j m ≡ none) × HasUniqueKeys m

  abbrev pub kept : (K → V → Bool) → K → Option V → Option V
  kept p k none = none
  kept p k (some v) = if p k v then some v else none

  pub get-retain_entries :
      (p : K → V → Bool) (k : K) (m : List (K × V))
      → HasUniqueKeys m
      → get k (retain_entries p m) ≡ kept p k (get k m)
  unfolding get retain_entries
  get-retain_entries p k [] u = refl
  get-retain_entries p k ((j, w) ∷ m) u = ground (arith, get-retain_entries p k m u.1)

  pub insert-HasUniqueKeys :
      (k : K) (v : V) (m : List (K × V)) → HasUniqueKeys m → HasUniqueKeys (insert k v m)
  unfolding get insert
  insert-HasUniqueKeys k v [] u = ground arith
  insert-HasUniqueKeys k v ((j, w) ∷ m) u =
      ground (arith, insert-HasUniqueKeys k v m u.1, get-insert k j v m)

  pub remove-HasUniqueKeys :
      (k : K) (m : List (K × V)) → HasUniqueKeys m → HasUniqueKeys (remove k m)
  unfolding get remove
  remove-HasUniqueKeys k [] u = tt
  remove-HasUniqueKeys k ((j, w) ∷ m) u =
      ground (arith, remove-HasUniqueKeys k m u.1, get-remove k j m)

  pub retain_entries-HasUniqueKeys :
      (p : K → V → Bool) (m : List (K × V)) → HasUniqueKeys m → HasUniqueKeys (retain_entries p m)
  unfolding get retain_entries
  retain_entries-HasUniqueKeys p [] u = tt
  retain_entries-HasUniqueKeys p ((j, w) ∷ m) u =
      ground (arith, retain_entries-HasUniqueKeys p m u.1, get-retain_entries p j m u.1)

  pub length-remove-le : (k : K) (m : List (K × V)) → length (remove k m) ≤ length m
  unfolding remove
  length-remove-le k [] = omega arith
  length-remove-le k ((j, w) ∷ m) = ground (arith, length-remove-le k m)

  pub length-retain_entries-le :
      (p : K → V → Bool) (m : List (K × V)) → length (retain_entries p m) ≤ length m
  unfolding retain_entries
  length-retain_entries-le p [] = omega arith
  length-retain_entries-le p ((j, w) ∷ m) = ground (arith, length-retain_entries-le p m)

  -- `while order.len() > size { values.remove(order.pop_front()) }`.
  unfoldable pub evict : ℕ → List (K × V) → List K → List (K × V) × List K
  evict size values [] = (values, [])
  evict size values (k ∷ order) = elim (ltb size (length (k ∷ order))) [
    | true ↦ evict size (remove k values) order
    | false ↦ (values, k ∷ order)
  ]

  -- What stays of the queue are its last `size` keys.
  pub evict-order :
      (size : ℕ) (values : List (K × V)) (order : List K)
      → (evict size values order).1 ≡ drop (length order - size) order
  unfolding evict
  evict-order size values [] = ground arith
  evict-order size values (k ∷ order) = elim (Bool-cases (ltb size (length (k ∷ order)))) [
    | inl full ↦
        rw (full, evict)
          (let e : suc (length order) - size ≡ suc (length order - size) =
              omega (arith, ltb→lt size (suc (length order)) full) in
            rw (evict-order size (remove k values) order, e))
    | inr fits ↦ rw (fits, evict) (let e : suc (length order) - size ≡ 0 = ground arith in rw e)
  ]

  member-evict :
      (size : ℕ) (values : List (K × V)) (order : List K) (j : K)
      → member dec j order ≡ false
      → member dec j (evict size values order).1 ≡ false
  unfolding evict member
  member-evict size values [] j h = refl
  member-evict size values (k ∷ order) j h = elim (Bool-cases (ltb size (length (k ∷ order)))) [
    | inl full ↦ rw (full, evict) (member-evict size (remove k values) order j (ground arith))
    | inr fits ↦ rw (fits, evict) h
  ]

  -- Of the map go exactly the keys that left the queue.
  pub get-evict :
      (size : ℕ) (values : List (K × V)) (order : List K) (j : K)
      → IsUnique dec order
      → get j (evict size values order).0 ≡ (
          if member dec j order
          then if member dec j (evict size values order).1 then get j values else none
          else get j values)
  unfolding evict member
  get-evict size values [] j u = refl
  get-evict size values (k ∷ order) j u = elim (Bool-cases (ltb size (length (k ∷ order)))) [
    | inl full ↦
        rw (full, evict)
          (ground (
            arith,
            get-evict size (remove k values) order j u.1,
            get-remove k j values,
            member-evict size (remove k values) order k u.0,
          ))
    | inr fits ↦ rw (fits, evict) (ground arith)
  ]

  pub evict-HasUniqueKeys :
      (size : ℕ) (values : List (K × V)) (order : List K)
      → HasUniqueKeys values
      → HasUniqueKeys (evict size values order).0
  unfolding evict
  evict-HasUniqueKeys size values [] u = u
  evict-HasUniqueKeys size values (k ∷ order) u =
      elim (Bool-cases (ltb size (length (k ∷ order)))) [
        | inl full ↦
            rw (full, evict)
              (evict-HasUniqueKeys size (remove k values) order (remove-HasUniqueKeys k values u))
        | inr fits ↦ rw (fits, evict) u
      ]

  -- A map whose keys all stand in the queue keeps that after an eviction.
  pub evict-covered :
      (size : ℕ) (values : List (K × V)) (order : List K)
      → ((j : K) → is_some (get j values) ≡ true → member dec j order ≡ true)
      → (j : K) → is_some (get j (evict size values order).0) ≡ true
      → member dec j (evict size values order).1 ≡ true
  unfolding evict member
  evict-covered size values [] c j h = c j h
  evict-covered size values (k ∷ order) c j h = elim (Bool-cases (ltb size (length (k ∷ order)))) [
    | inl full ↦
        rw (full, evict)
          (evict-covered size (remove k values) order
            (λ i e. ground (arith, get-remove k i values, c i)) j (rw (full, evict) at h))
    | inr fits ↦ rw (fits, evict) (c j (rw (fits, evict) at h))
  ]
