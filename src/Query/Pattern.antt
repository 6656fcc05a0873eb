-- ===== src/Query/Pattern.antt =====
-- `escape_like` of query.rs: the pattern of an escaped text matches that text literally.
use opcda_bridge.Base.{
  ℕ, ◌≡◌, refl, Bool, true, false, ◌||◌, Option, none, some, List, [], ◌∷◌, arith, ◌==◌, Bool-cases,
  inl, inr, if◌then◌else◌,
}
use opcda_bridge.Query.{replace_escaped, escape_like}

-- The characters that a LIKE pattern with the escape character backslash stands for, if it has no
-- wildcard and no escape of another character than the two wildcards and the backslash.
abbrev pub is_special : ℕ → Bool
is_special c = c == b'\\' || (c == b'%' || c == b'_')

abbrev pub cons_text : ℕ → Option (List ℕ) → Option (List ℕ)
cons_text c none = none
cons_text c (some s) = some (c ∷ s)

abbrev pub literal_text : List ℕ → Option (List ℕ)
literal_text [] = some []
literal_text (c ∷ []) = if is_special c then none else some (c ∷ [])
literal_text (c ∷ d ∷ s) =
    let escaped = cons_text d (literal_text s) in
    let plain = cons_text c (literal_text (d ∷ s)) in
    if c == b'\\'
    then if is_special d then escaped else none
    else if is_special c
    then none
    else plain

escape_like-nil : escape_like [] ≡ []
unfolding escape_like replace_escaped
escape_like-nil = refl

escape_like-cons :
    (c : ℕ) (s : List ℕ)
    → escape_like (c ∷ s) ≡ (if is_special c then b'\\' ∷ c ∷ escape_like s else c ∷ escape_like s)
unfolding escape_like replace_escaped
escape_like-cons c s = ground arith

literal-plain :
    (c : ℕ) (s : List ℕ)
    → is_special c ≡ false
    → literal_text (c ∷ s) ≡ cons_text c (literal_text s)
literal-plain c [] h = ground arith
literal-plain c (d ∷ s) h = ground arith

literal-escaped :
    (c : ℕ) (s : List ℕ)
    → is_special c ≡ true
    → literal_text (b'\\' ∷ c ∷ s) ≡ cons_text c (literal_text s)
literal-escaped c s h = ground arith

-- For every text, the escaped pattern holds no wildcard and stands for exactly that text.
pub literal-escape_like : (s : List ℕ) → literal_text (escape_like s) ≡ some s
literal-escape_like [] = rw escape_like-nil refl
literal-escape_like (c ∷ s) = rw (escape_like-cons c s) (elim (Bool-cases (is_special c)) [
  | inl e ↦ rw (e, literal-escaped c (escape_like s) e, literal-escape_like s) refl
  | inr e ↦ rw (e, literal-plain c (escape_like s) e, literal-escape_like s) refl
])
