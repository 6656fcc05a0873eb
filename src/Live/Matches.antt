-- ===== src/Live/Matches.antt =====
-- What the match of one node sends.
use Prim.Native.String.{String}
use mathlib.Core.List.{append-nil}
use opcda_bridge.Base.{
  ◌≤◌, ◌≡◌, refl, inl, inr, true, false, Option, none, some, List, [], ◌∷◌, ◌++◌, arith, leb,
  saturating_add, u32_max, String-discrete, member, IsUnique, member-append, snoc-IsUnique,
  Bool-cases,
}
use opcda_bridge.Browse.{BrowseNode, BrowseNodeKind, branch, item, branch_and_item}
use opcda_bridge.Wire.Messages.{ProtoSearchMatch, found}
use opcda_bridge.Wire.Gateway.{map_browse_node, item_id_of}
use opcda_bridge.Live.{
  Breadcrumbs, SearchState, SearchContext, Given, match_node, is_match, is_new, remember,
  max_search_visited, child_search_scope, crumb,
}
use opcda_bridge.Live.Loops.{is_open, sending, queued, queue_children, process_node, report_match}
use opcda_bridge.Live.Events.{
  item_ids, no_completed, founds-snoc, item_ids-snoc, no_completed-snoc, listed, IsFine, Going,
  Outcome, complete_with-Outcome,
}

-- The ItemIDs of a new node leave those sent different, and are remembered.
listed-IsUnique :
    (s : SearchState) (id : Option String) (ids : List String)
    → is_new s id ≡ true
    → IsUnique String-discrete ids
    → ((i : String)
        → member String-discrete i ids ≡ true
        → member String-discrete i s.matched_item_ids ≡ true)
    → IsUnique String-discrete (ids ++ listed id)
listed-IsUnique s none ids n u c = rw append-nil u
listed-IsUnique s (some id) ids n u c =
    snoc-IsUnique String-discrete id ids u
      (ground (arith, c id, Bool-cases (member String-discrete id ids)))

named-IsUnique :
    (s : SearchState) (k : BrowseNodeKind) (id : Option String) (ids : List String)
    → is_new s id ≡ true
    → IsUnique String-discrete ids
    → ((i : String)
        → member String-discrete i ids ≡ true
        → member String-discrete i s.matched_item_ids ≡ true)
    → IsUnique String-discrete (ids ++ listed (item_id_of k id))
named-IsUnique s branch id ids n u c = rw append-nil u
named-IsUnique s item id ids n u c = listed-IsUnique s id ids n u c
named-IsUnique s branch_and_item id ids n u c = listed-IsUnique s id ids n u c

listed-covered :
    (s : SearchState) (k : BrowseNodeKind) (id : Option String) (ids : List String)
    → ((i : String)
        → member String-discrete i ids ≡ true
        → member String-discrete i s.matched_item_ids ≡ true)
    → (i : String) → member String-discrete i (ids ++ listed (item_id_of k id)) ≡ true
    → member String-discrete i (remember id s.matched_item_ids) ≡ true
unfolding member
listed-covered s branch none ids c i m = c i (rw append-nil at m)
listed-covered s branch (some id) ids c i m = let known = c i (rw append-nil at m) in ground arith
listed-covered s k none ids c i m = ground (arith, c i, member-append String-discrete i ids [])
listed-covered s k (some id) ids c i m =
    ground (arith, c i, member-append String-discrete i ids (id ∷ []))

module _ (given : Given) (small : given.max_results ≤ u32_max) where
  pub queue_children-Outcome :
      (node : BrowseNode) (crumbs : Breadcrumbs) (c : SearchContext)
      → Going given c
      → Outcome given (queue_children given node crumbs c)
  unfolding queue_children
  queue_children-Outcome node crumbs c g =
      let d = record c { scopes = queued (child_search_scope node crumbs) c.scopes } in
      let kept : Going given d = record {
        fine = g.fine;
        open_ended = g.open_ended;
        counted = g.counted;
        below = g.below;
        covered = g.covered;
      } in
      elim (Bool-cases (leb max_search_visited d.state.visited_nodes)) [
        | inl full ↦ rw full (
            complete_with-Outcome given false true (some "search visit limit reached") d g.fine
              g.open_ended)
        | inr free ↦ rw free kept
      ]

  module _ (node : BrowseNode) (crumbs : Breadcrumbs) (c : SearchContext) (s : SearchState)
      (g : Going given c) (matches : s.matches ≡ c.state.matches)
      (ids : s.matched_item_ids ≡ c.state.matched_item_ids) where
    sent_match : ProtoSearchMatch
    sent_match = record {
      node = some (map_browse_node node);
      breadcrumbs = crumbs ++ crumb node ∷ [];
    }

    abbrev matched_state : SearchState
    matched_state = record s {
      matched_item_ids = remember node.item_id s.matched_item_ids;
      matches = saturating_add u32_max s.matches 1;
    }

    abbrev matched : SearchContext
    matched = record c { state = matched_state }

    abbrev reported : SearchContext
    reported = sending (found sent_match) matched

    ids_sent :
        item_ids reported.sent ≡ item_ids c.sent ++ listed (item_id_of node.kind node.item_id)
    unfolding sent_match map_browse_node
    ids_sent = item_ids-snoc (found sent_match) c.sent

    reported-IsFine : is_new s node.item_id ≡ true → IsFine given reported.sent
    reported-IsFine n = record {
      bounded = ground (arith, founds-snoc (found sent_match) c.sent, g.counted, g.below);
      unique = rw ids_sent (
          named-IsUnique s node.kind node.item_id (item_ids c.sent) n g.fine.unique
            (λ i m. rw ids (g.covered i m)));
    }

    reported-open : no_completed reported.sent ≡ true
    reported-open = rw (no_completed-snoc (found sent_match) c.sent) (ground (arith, g.open_ended))

    reported-Going :
        is_new s node.item_id ≡ true
        → leb given.max_results matched_state.matches ≡ false
        → Going given reported
    reported-Going n h = record {
      fine = reported-IsFine n;
      open_ended = reported-open;
      counted = ground (arith, founds-snoc (found sent_match) c.sent, g.counted, g.below);
      below = ground arith;
      covered = λ i m.
          listed-covered s node.kind node.item_id (item_ids c.sent) (λ j k. rw ids (g.covered j k))
            i (rw ids_sent at m);
    }

    report-Outcome :
        is_new s node.item_id ≡ true
        → Outcome given (report_match given node crumbs (some sent_match) matched)
    report-Outcome n = elim (Bool-cases (is_open given matched)) [
      | inr closed ↦ rw closed (g.fine, inr (g.open_ended, closed))
      | inl open_stream ↦
          rw open_stream (elim (Bool-cases (leb given.max_results matched_state.matches)) [
            | inl full ↦ rw full (
                complete_with-Outcome given false true (some "search result limit reached") reported
                  (reported-IsFine n) reported-open)
            | inr below ↦
                rw below (queue_children-Outcome node crumbs reported (reported-Going n below))
          ])
    ]

  -- One node: the search goes on, or it stops as it should.
  pub process_node-Outcome :
      (node : BrowseNode) (crumbs : Breadcrumbs) (c : SearchContext)
      → Going given c
      → Outcome given (process_node given node crumbs c)
  unfolding process_node match_node sent_match
  process_node-Outcome node crumbs c g =
      let s = record c.state { visited_nodes = saturating_add u32_max c.state.visited_nodes 1 } in
      let unmatched : Going given (record c { state = s }) = record {
        fine = g.fine;
        open_ended = g.open_ended;
        counted = g.counted;
        below = g.below;
        covered = g.covered;
      } in
      elim (Bool-cases (is_match given.request given.mode s node)) [
        | inl here ↦ rw here (report-Outcome node crumbs c s g refl refl (ground arith))
        | inr other ↦
            rw other (queue_children-Outcome node crumbs (record c { state = s }) unmatched)
      ]
