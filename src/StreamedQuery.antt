-- ===== src/StreamedQuery.antt =====
-- src/streamed_query.rs: one result out of a stream of chunks, which is the list of what it yields.
pub mod Folding
use rs_query.Base.{◌⊎◌, inl, inr, Option, none, some, List, [], ◌∷◌, ◌++◌, Text}
use rs_query.State.{QueryError}

-- `RefetchMode`.
pub data RefetchMode : Type 0 where
  replace append reset : RefetchMode

abbrev pub default_mode : RefetchMode
default_mode = RefetchMode.reset

-- The trait `CombineChunks`, of `Vec<E>` and of `String`.
pub record CombineChunks (T : Type 0) : Type 0 where
  pub combine : T → T → T

instance abbrev pub combine_list : {A : Type 0} → CombineChunks (List A)
combine_list = record { combine = λ acc chunk. acc ++ chunk }

-- `StreamedQueryConfig<T>`.
pub record StreamedQueryConfig (T : Type 0) : Type 0 where
  pub refetch_mode : RefetchMode
  pub reducer : Option (T → T → T)
  pub initial_value : Option T

module _ {T : Type 0} where
  unfoldable pub default_config : StreamedQueryConfig T
  default_config = record { refetch_mode = default_mode; reducer = none; initial_value = none }

  unfoldable pub with_refetch_mode : RefetchMode → StreamedQueryConfig T → StreamedQueryConfig T
  with_refetch_mode m c = record c { refetch_mode = m }

  unfoldable pub with_reducer : (T → T → T) → StreamedQueryConfig T → StreamedQueryConfig T
  with_reducer f c = record c { reducer = some f }

  unfoldable pub with_initial_value : T → StreamedQueryConfig T → StreamedQueryConfig T
  with_initial_value v c = record c { initial_value = some v }

  -- The accumulator that `collect_stream` starts from.
  unfoldable pub base : RefetchMode → Option T → Option T
  base RefetchMode.append previous = previous
  base _ previous = none

module _ {T : Type 0} ⦃c : CombineChunks T⦄ where
  abbrev pub combined : Option (T → T → T) → T → T → T
  combined (some reduce) current chunk = reduce current chunk
  combined none current chunk = c.combine current chunk

  unfoldable pub add_chunk : Option (T → T → T) → Option T → T → T
  add_chunk reducer none chunk = chunk
  add_chunk reducer (some current) chunk = combined reducer current chunk

  -- The `while let` of `collect_stream`, and `acc.ok_or(UndefinedData)`.
  unfoldable pub collect : Option (T → T → T) → Option T → List (T ⊎ QueryError) → T ⊎ QueryError
  collect reducer none [] = inr QueryError.undefined_data
  collect reducer (some v) [] = inl v
  collect reducer acc (inr e ∷ chunks) = inr e
  collect reducer acc (inl chunk ∷ chunks) =
      collect reducer (some (add_chunk reducer acc chunk)) chunks

  unfoldable pub collect_stream :
      List (T ⊎ QueryError) → RefetchMode → Option T → Option (T → T → T) → T ⊎ QueryError
  collect_stream stream mode previous reducer = collect reducer (base mode previous) stream

  -- A call of the closure of `streamed_query`.
  unfoldable pub streamed_query : List (T ⊎ QueryError) → StreamedQueryConfig T → T ⊎ QueryError
  streamed_query stream config =
      collect_stream stream config.refetch_mode config.initial_value config.reducer
