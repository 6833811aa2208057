-- ===== src/StreamedQuery/Folding.antt =====
-- What a stream comes to: its chunks up to the first error, or a fold of all of them.
use rs_query.Base.{◌⊎◌, inl, inr, Option, none, some, List, [], ◌∷◌, ◌++◌}
use rs_query.State.{QueryError}
use rs_query.StreamedQuery.{combine_list}

-- A stream that yields chunks and then goes on.
abbrev pub yields : {T : Type 0} → List T → List (T ⊎ QueryError) → List (T ⊎ QueryError)
yields [] rest = rest
yields (chunk ∷ chunks) rest = inl chunk ∷ yields chunks rest

module _ {A : Type 0} where
  abbrev joined : List (List A) → List A
  joined [] = []
  joined (x ∷ xs) = x ++ joined xs

  -- The value that a mode keeps, if there is one, and the chunks.
  abbrev pub started : Option (List A) → List (List A) → List (List A)
  started none chunks = chunks
  started (some v) chunks = v ∷ chunks

  abbrev pub whole : List (List A) → List A ⊎ QueryError
  whole [] = inr QueryError.undefined_data
  whole (v ∷ vs) = inl (joined (v ∷ vs))
