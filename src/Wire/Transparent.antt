-- ===== src/Wire/Transparent.antt =====
-- A client's call of the index is the manager's: what the messages on the way make of it.
use Prim.Native.String.{String, count}
use opcda_bridge.Base.{ite, ltb, if◌then◌else◌, String-discrete}
use opcda_bridge.Wire.Enums.{match_mode_number}
use opcda_bridge.Wire.Library as Library
use opcda_bridge.Wire.Library.{SearchMatchMode, SearchIndexRequest}
use opcda_bridge.Wire.Service.{
  IndexOperationError, Answer, ok, err, IndexManager, invalid, minimum_length, too_short, Status,
}
use opcda_bridge.Wire.Client.{Error, rpc, mode_value}
use opcda_bridge.Wire.Answers.{
  client_error, client_response, relayed, internal_error_of, read_status,
}

module _ {V : Type 0} (manager : IndexManager V) where
  open manager use {State, status, refresh, control, search, normalize_query, quoted}

  abbrev pub Outcome : Type 0 → Type 0
  Outcome A = State × Answer Error A

  -- A control, and then the status.
  abbrev pub status_next :
      String → State × Answer IndexOperationError (Unit {0}) → Outcome (Library.SearchIndexStatus V)
  status_next server (s, ok u) = relayed internal_error_of read_status (status server s)
  status_next server (s, err e) = (s, err (client_error server e))

  -- The search, if the folded query is long enough for the mode.
  abbrev pub searched : SearchIndexRequest → State → Outcome (Library.SearchIndexResponse V)
  searched r s =
      ite (String-discrete (normalize_query r.query) "")
        (s, err (rpc (invalid "search query must not be empty")))
        (if ltb (count (normalize_query r.query)) (minimum_length (mode_value r.match_mode))
          then (s, err (rpc (too_short (mode_value r.match_mode))))
          else relayed internal_error_of client_response (
              search r.server r.query (match_mode_number (mode_value r.match_mode)) r.max_results
                s))
