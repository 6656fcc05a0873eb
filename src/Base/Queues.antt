-- ===== src/Base/Queues.antt =====
-- Queues of keys with a decidable equality, as lists with the oldest key first.
use Prim.Native.Nat.{ℕ, zero, suc, ◌+◌, ◌≤◌}
use mathlib.Core.Path.{◌≡◌, refl, ◌∙◌, ap, sym}
use mathlib.Core.Logic.{ite, ◌≢◌}
use mathlib.Core.List.{List, [], ◌∷◌, ◌++◌}
use mathlib.Core.Bool.{Bool, true, false, ◌&&◌, ◌||◌}
use native.Mathlib.Omega.{arith}
use opcda_bridge.Base.Lists.{length, drop, retain}

module _ {K : Type 0} (dec : Discrete K) where
  unfoldable pub member : K → List K → Bool
  member k [] = false
  member k (x ∷ xs) = ite (dec x k) true (member k xs)

  -- The queue without the key: `retain(|existing| existing != key)`.
  unfoldable pub without : K → List K → List K
  without k [] = []
  without k (x ∷ xs) = ite (dec x k) (without k xs) (x ∷ without k xs)

  abbrev pub IsUnique : List K → Type 0
  IsUnique [] = Unit {0}
  IsUnique (x ∷ xs) = (member x xs ≡ false) × IsUnique xs

  pub member-append : (k : K) (xs ys : List K) → member k (xs ++ ys) ≡ (member k xs || member k ys)
  unfolding member
  member-append k [] ys = refl
  member-append k (x ∷ xs) ys = ground (arith, member-append k xs ys)

  pub member-without :
      (k j : K) (xs : List K) → member k (without j xs) ≡ ite (dec j k) false (member k xs)
  unfolding member without
  member-without k j [] = ground arith
  member-without k j (x ∷ xs) = ground (arith, member-without k j xs)

  pub without-IsUnique : (k : K) (xs : List K) → IsUnique xs → IsUnique (without k xs)
  unfolding without
  without-IsUnique k [] u = tt
  without-IsUnique k (x ∷ xs) u = ground (arith, without-IsUnique k xs u.1, member-without x k xs)

  pub snoc-IsUnique :
      (k : K) (xs : List K) → IsUnique xs → member k xs ≡ false → IsUnique (xs ++ k ∷ [])
  unfolding member
  snoc-IsUnique k [] u m = ground arith
  snoc-IsUnique k (x ∷ xs) u m = ground (arith, snoc-IsUnique k xs u.1, member-append x xs (k ∷ []))

  pub drop-IsUnique : (n : ℕ) (xs : List K) → IsUnique xs → IsUnique (drop n xs)
  drop-IsUnique zero xs u = u
  drop-IsUnique (suc n) [] u = tt
  drop-IsUnique (suc n) (x ∷ xs) u = drop-IsUnique n xs u.1

  pub member-drop : (k : K) (n : ℕ) (xs : List K) → member k (drop n xs) ≡ true → member k xs ≡ true
  unfolding member
  member-drop k zero xs m = m
  member-drop k (suc n) [] m = m
  member-drop k (suc n) (x ∷ xs) m = ground (arith, member-drop k n xs m)

  -- The last of a queue is dropped only with all of it.
  pub member-drop-snoc :
      (k : K) (n : ℕ) (xs : List K) → n ≤ length xs → member k (drop n (xs ++ k ∷ [])) ≡ true
  unfolding member
  member-drop-snoc k zero [] h = ground arith
  member-drop-snoc k (suc n) [] h = absurd (omega arith)
  member-drop-snoc k zero (x ∷ xs) h = ground (arith, member-drop-snoc k zero xs)
  member-drop-snoc k (suc n) (x ∷ xs) h = member-drop-snoc k n xs (omega arith)

  pub length-without-le : (k : K) (xs : List K) → length (without k xs) ≤ length xs
  unfolding without
  length-without-le k [] = omega arith
  length-without-le k (x ∷ xs) = ground (arith, length-without-le k xs)

  pub length-without-lt :
      (k : K) (xs : List K) → member k xs ≡ true → length (without k xs) + 1 ≤ length xs
  unfolding member without
  length-without-lt k [] m = cc
  length-without-lt k (x ∷ xs) m = ground (arith, length-without-lt k xs, length-without-le k xs)

  pub member-retain :
      (p : K → Bool) (k : K) (xs : List K) → member k (retain p xs) ≡ (member k xs && p k)
  unfolding member retain
  member-retain p k [] = refl
  member-retain p k (x ∷ xs) = ground (arith, member-retain p k xs)

  pub retain-IsUnique : (p : K → Bool) (xs : List K) → IsUnique xs → IsUnique (retain p xs)
  unfolding retain
  retain-IsUnique p [] u = tt
  retain-IsUnique p (x ∷ xs) u = ground (arith, retain-IsUnique p xs u.1, member-retain p x xs)

  -- The queue with the key moved to its end.
  abbrev pub moved : K → List K → List K
  moved k xs = without k xs ++ k ∷ []

  pub retain-without :
      (p q : K → Bool) (k : K) (xs : List K)
      → ((j : K) → k ≢ j → p j ≡ q j)
      → retain p (without k xs) ≡ without k (retain q xs)
  unfolding retain without
  retain-without p q k [] h = refl
  retain-without p q k (x ∷ xs) h = elim (dec x k) [
    | yes e ↦ ground (arith, retain-without p q k xs h)
    | no n ↦ ground (arith, retain-without p q k xs h, h x (λ e. n (sym e)))
  ]

  retain-snoc :
      (p : K → Bool) (k : K) (xs : List K)
      → p k ≡ true
      → retain p (xs ++ k ∷ []) ≡ retain p xs ++ k ∷ []
  unfolding retain
  retain-snoc p k [] h = ground arith
  retain-snoc p k (x ∷ xs) h = ground (arith, retain-snoc p k xs h)

  pub retain-moved :
      (p q : K → Bool) (k : K) (xs : List K)
      → p k ≡ true
      → ((j : K) → k ≢ j → p j ≡ q j)
      → retain p (moved k xs) ≡ moved k (retain q xs)
  retain-moved p q k xs e h =
      retain-snoc p k (without k xs) e ∙ ap (λ ys. ys ++ k ∷ []) (retain-without p q k xs h)

  pub retain-retain :
      (p q r : K → Bool) (xs : List K)
      → ((j : K) → r j ≡ (p j && q j))
      → retain p (retain q xs) ≡ retain r xs
  unfolding retain
  retain-retain p q r [] h = refl
  retain-retain p q r (x ∷ xs) h = ground (arith, h x, retain-retain p q r xs h)

  retain-all :
      (p : K → Bool) (xs : List K) → ((j : K) → member j xs ≡ true → p j ≡ true) → retain p xs ≡ xs
  unfolding retain member
  retain-all p [] h = refl
  retain-all p (x ∷ xs) h =
      ground (arith, h x (ground arith), retain-all p xs (λ j m. h j (ground arith)))

  -- The rest of a queue is what it has in common with the queue.
  pub retain-drop :
      (p : K → Bool) (n : ℕ) (xs : List K)
      → IsUnique xs
      → ((j : K) → p j ≡ member j (drop n xs))
      → retain p xs ≡ drop n xs
  unfolding retain
  retain-drop p zero xs u h = retain-all p xs (λ j m. h j ∙ m)
  retain-drop p (suc n) [] u h = refl
  retain-drop p (suc n) (x ∷ xs) u h =
      ground (arith, h x, u.0, member-drop x n xs, retain-drop p n xs u.1 h)
