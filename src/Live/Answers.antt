-- ===== src/Live/Answers.antt =====
-- run_search of server/search.rs as a whole: what its stream is, and when it has not ended.
use opcda_bridge.Base.{
  ◌-◌, ℕ, zero, suc, ◌+◌, ◌≤◌, ◌<◌, ◌≡◌, refl, ◌⊎◌, inl, inr, true, false, Option, none, List,
  arith, is_some, is_none_or, ltb, length, u32_max, String-discrete, IsUnique, Bool-cases,
}
use opcda_bridge.Wire.Messages.{ProtoEvent}
use opcda_bridge.Live.{
  SearchContext, SearchError, Given, Step, continue, stop, out_of_fuel, failed, max_search_visited,
  initial_search_scopes,
}
use opcda_bridge.Live.Loops.{
  is_open, process_pages, process_scope, process_scopes, run_search_inner, run_search, progress_of,
  blank, sending, error_of,
}
use opcda_bridge.Live.Events.{
  founds, item_ids, no_completed, is_ended, Going, Outcome, complete_with-Outcome,
  continuing-Outcome,
}
use opcda_bridge.Live.Stream.{process_pages-Outcome}
use opcda_bridge.Live.Ends.{Ends, HasStalls}
use opcda_bridge.Live.Scopes.{List-cases, Endless, process_scopes-Ends}

module _ (given : Given) (small : given.max_results ≤ u32_max) where
  process_scopes-Outcome :
      (fuel pages : ℕ) (c : SearchContext)
      → Going given c
      → Outcome given (process_scopes given fuel pages c)
  unfolding process_scopes process_scope
  process_scopes-Outcome zero pages c g = (g.fine, g.open_ended)
  process_scopes-Outcome (suc fuel) pages c g = elim (List-cases c.scopes) [
    | inl e ↦
        rw (e, process_scopes) (complete_with-Outcome given true false none c g.fine g.open_ended)
    | inr (scope, rest, e) ↦
        let popped : Going given (record c { scopes = rest }) = record {
          fine = g.fine;
          open_ended = g.open_ended;
          counted = g.counted;
          below = g.below;
          covered = g.covered;
        } in
        rw (e, process_scopes)
          (continuing-Outcome given
            (process_pages given pages scope none true (record c { scopes = rest })) _
            (process_pages-Outcome given small pages scope none true (record c { scopes = rest })
              popped)
            (process_scopes-Outcome fuel pages))
  ]

-- What the stream of a search is, from its events and the error after them; `Runs` is what must hold
-- for a search that has not ended.
pub record IsStream (given : Given) (Runs : Type 0) (es : List ProtoEvent) (e : Option SearchError)
    : Type 0 where
  pub bounded : founds es ≤ given.max_results
  pub unique : IsUnique String-discrete (item_ids es)
  pub ended :
      (is_ended es ≡ true) × (e ≡ none)
      ⊎ (no_completed es ≡ true)
        × ((is_some e ≡ is_none_or given.room (λ n. ltb (length es) n)) ⊎ (e ≡ none) × Runs)

outcome-IsStream :
    (given : Given) (Runs : Type 0) (r : SearchContext × Step)
    → Outcome given r
    → Ends Runs (λ d. ⊥) r
    → IsStream given Runs r.0.sent (error_of given r.0 r.1)
outcome-IsStream given Runs (c, continue) o e = absurd e
outcome-IsStream given Runs (c, stop) o e = record {
  bounded = o.0.bounded;
  unique = o.0.unique;
  ended = elim o.1 [ inl h ↦ inl (h, refl) | inr h ↦ inr (h.0, inl (ground arith)) ];
}
outcome-IsStream given Runs (c, out_of_fuel) o e = record {
  bounded = o.0.bounded;
  unique = o.0.unique;
  ended = inr (o.1, inr (refl, e));
}
outcome-IsStream given Runs (c, failed x) o e = record {
  bounded = o.0.bounded;
  unique = o.0.unique;
  ended = elim (Bool-cases (is_open given c)) [
    | inl h ↦ inr (o.1, inl (rw h refl))
    | inr h ↦ inr (o.1, inl (rw h refl))
  ];
}

module _ (given : Given) (fuel pages : ℕ) where
  first_sent-Going :
      1 ≤ given.max_results
      → Going given (sending (progress_of given (blank given).state false) (blank given))
  unfolding founds item_ids no_completed
  first_sent-Going one = record {
    fine = record { bounded = omega arith; unique = tt };
    open_ended = refl;
    counted = refl;
    below = omega arith;
    covered = λ id m. ground arith;
  }

  run-Outcome :
      1 ≤ given.max_results
      → given.max_results ≤ u32_max
      → Outcome given (run_search_inner given fuel pages)
  unfolding run_search_inner founds item_ids no_completed
  run-Outcome one small = elim (Bool-cases (is_open given (blank given))) [
    | inl h ↦ rw h (process_scopes-Outcome given small fuel pages _ (first_sent-Going one))
    | inr h ↦ rw h (record { bounded = omega arith; unique = tt }, inr (refl, h))
  ]

  run-Ends :
      max_search_visited + 1 < fuel
      → Ends (Endless given pages) (λ d. ⊥) (run_search_inner given fuel pages)
  unfolding run_search_inner initial_search_scopes
  run-Ends f = elim (Bool-cases (is_open given (blank given))) [
    | inl h ↦ rw h (
        process_scopes-Ends given fuel pages
          (sending (progress_of given (blank given).state false) (blank given)) (omega arith)
          (omega arith))
    | inr h ↦ rw h tt
  ]

-- A search for at least one match, on fuel for 50002 scopes and for `pages` pages of a scope, whatever
-- its browse calls answer: its stream holds at most as many matches as asked for, and no ItemID twice.
-- Either its last event is the completion, no other is one, and no error follows; or there is no
-- completion, and then an error follows exactly if the client has not closed the stream, or no error
-- follows and the search is still running. It is still running only if some scope has pages, each asked
-- for by the token that the one before names, of which at least `pages` - 50000 are empty and name a next
-- page.
pub run_search-IsStream :
    (given : Given) (fuel pages : ℕ)
    → 1 ≤ given.max_results
    → given.max_results ≤ u32_max
    → max_search_visited + 1 < fuel
    → IsStream given
        (HasStalls given (pages - max_search_visited))
        (run_search given fuel pages).0
        (run_search given fuel pages).1
unfolding run_search
run_search-IsStream given fuel pages one small f =
    outcome-IsStream given (HasStalls given (pages - max_search_visited))
      (run_search_inner given fuel pages) (run-Outcome given fuel pages one small)
      (run-Ends given fuel pages f)
