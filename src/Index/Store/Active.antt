-- ===== src/Index/Store/Active.antt =====
-- The store refines a map from servers to their active generation.
use Prim.Native.String.{String}
use opcda_bridge.Base.{
  ℕ, ◌+◌, ◌≤◌, ◌≡◌, Bool, false, Option, none, some, List, [], ◌∷◌, ◌++◌, arith, ite, if◌then◌else◌,
  String-discrete, ap,
}
use opcda_bridge.Index.Store.{
  Generation, Store, Promotion, update_where, delete_where, count_where, is_staged, is_active_of,
  is_active, supersede, activate, fail, latest, promote_with_profile,
}
use opcda_bridge.Index.Store.Statements.{Statement, promotes, clears, deletes}
use opcda_bridge.Index.Store.Rows.{
  has_key, active_of, count-update, count-delete-le, count-append, count_active-supersede,
  count_active-activate, active_of-supersede, active_of-activate, count-above_latest,
}

-- No two rows have the same key, and a server has at most one active generation.
pub record Inv (rows : List Generation) : Type 0 where
  pub keyed : (t : String) (g : ℕ) → count_where (has_key t g) rows ≤ 1
  pub single : (t : String) → count_where (is_active_of t) rows ≤ 1

-- What a statement does to the map: only a promotion that is committed, and the removal of a server.
abbrev pub Published : Type 0
Published = String → Option ℕ

abbrev pub publish : Statement → Bool → Published → Published
publish (promotes s g p) committed active t =
    if committed then ite (String-discrete s t) (some g) (active t) else active t
publish (clears s) committed active t = ite (String-discrete s t) none (active t)
publish (deletes s) committed active t = ite (String-discrete s t) none (active t)
publish _ committed active t = active t

-- Whether the statement is a promotion that is committed.
abbrev pub commits : Statement → Store → Bool
commits (promotes s g p) store = (promote_with_profile s g p store).1
commits _ store = false

pub append-Inv :
    (rows : List Generation) (r : Generation) (s : String)
    → r.server ≡ s
    → r.generation ≡ latest s rows + 1
    → is_active r.state ≡ false
    → Inv rows
    → Inv (rows ++ r ∷ [])
append-Inv rows r s e g a i = record {
  keyed = λ t k. ground (
    arith,
    count-append (has_key t k) rows r,
    i.keyed t k,
    count-above_latest t k rows,
    ap (λ x. latest x rows) e,
  );
  single = λ t. ground (arith, count-append (is_active_of t) rows r, i.single t);
}

pub delete-Inv :
    (p : Generation → Bool) (rows : List Generation) → Inv rows → Inv (delete_where p rows)
delete-Inv p rows i = record {
  keyed = λ t g. omega (arith, count-delete-le (has_key t g) p rows, i.keyed t g);
  single = λ t. omega (arith, count-delete-le (is_active_of t) p rows, i.single t);
}

-- An update that keeps keys and active rows.
pub update-Inv :
    (p : Generation → Bool) (f : Generation → Generation) (rows : List Generation)
    → ((t : String) (k : ℕ) (r : Generation) → has_key t k (if p r then f r else r) ≡ has_key t k r)
    → ((t : String) (r : Generation) → is_active_of t (if p r then f r else r) ≡ is_active_of t r)
    → Inv rows
    → Inv (update_where p f rows)
update-Inv p f rows h a i = record {
  keyed = λ t k. rw (count-update (has_key t k) p f rows (h t k)) (i.keyed t k);
  single = λ t. rw (count-update (is_active_of t) p f rows (a t)) (i.single t);
}

pub fail-Inv :
    (s error : String) (g : ℕ) (rows : List Generation)
    → Inv rows
    → Inv (update_where (is_staged s g) (fail error) rows)
fail-Inv s error g rows i =
    update-Inv (is_staged s g) (fail error) rows (λ t k r. ground arith) (λ t r. ground arith) i

-- The rows that a committed promotion leaves.
abbrev promoted : String → ℕ → Promotion → List Generation → List Generation
promoted s g p rows =
    update_where (is_staged s g) (activate p) (update_where (is_active_of s) supersede rows)

pub promoted-Inv :
    (s : String) (g : ℕ) (p : Promotion) (rows : List Generation)
    → count_where (is_staged s g) (update_where (is_active_of s) supersede rows) ≡ 1
    → Inv rows
    → Inv (promoted s g p rows)
promoted-Inv s g p rows one i =
    let others = update_where (is_active_of s) supersede rows in
    record {
      keyed = λ t k.
          rw
            (
              count-update (has_key t k) (is_staged s g) (activate p) others (λ r. ground arith),
              count-update (has_key t k) (is_active_of s) supersede rows (λ r. ground arith),
            )
            (i.keyed t k);
      single = λ t. ground (
        arith,
        count_active-activate s t g p others,
        count_active-supersede s t rows,
        i.single t,
      );
    }

pub active_of-promoted :
    (s t : String) (g : ℕ) (p : Promotion) (rows : List Generation)
    → count_where (is_staged s g) (update_where (is_active_of s) supersede rows) ≡ 1
    → active_of t (promoted s g p rows) ≡ ite (String-discrete s t) (some g) (active_of t rows)
active_of-promoted s t g p rows one =
    let others = update_where (is_active_of s) supersede rows in
    let cleared : active_of s others ≡ none = ground (arith, active_of-supersede s s rows) in
    ground (arith, active_of-activate s t g p others cleared, active_of-supersede s t rows)
