-- ===== src/Tests/Streams.antt =====
-- Streamed queries (src/streamed_query.rs) at concrete inputs.
use rs_query.Base.{ℕ, none, some, List, [], ◌∷◌}
use rs_query.StreamedQuery.{StreamedQueryConfig, RefetchMode, combine_list}

abbrev appending : StreamedQueryConfig (List ℕ)
appending = record {
  refetch_mode = RefetchMode.append;
  reducer = none;
  initial_value = some (1 ∷ []);
}

abbrev chunks : List (List ℕ)
chunks = (2 ∷ 3 ∷ []) ∷ [] ∷ (4 ∷ []) ∷ []
