-- ===== src/Infinite.antt =====
-- src/infinite.rs: the pages of an infinite query with their parameters, and the page limit that
-- `append_infinite_page` and `prepend_infinite_page` of src/client.rs apply.
pub mod Pages
use rs_query.Base.{
  ℕ, zero, suc, Bool, true, false, Option, none, some, List, [], ◌∷◌, ◌++◌, ltb, length, head?,
  get_last?, is_some, if◌then◌else◌,
}

pub record InfiniteData (T P : Type 0) : Type 0 where
  pub pages : List T
  pub page_params : List P

abbrev pub init_of {ℓ} : {A : Type ℓ} → List A → List A
init_of [] = []
init_of (x ∷ []) = []
init_of (x ∷ y ∷ xs) = x ∷ init_of (y ∷ xs)

module _ {T P : Type 0} where
  abbrev pub empty : InfiniteData T P
  empty = record { pages = []; page_params = [] }

  unfoldable pub with_first_page : T → P → InfiniteData T P
  with_first_page page param = record { pages = page ∷ []; page_params = param ∷ [] }

  unfoldable pub push_page : T → P → InfiniteData T P → InfiniteData T P
  push_page page param d = record {
    pages = d.pages ++ page ∷ [];
    page_params = d.page_params ++ param ∷ [];
  }

  unfoldable pub page_count : InfiniteData T P → ℕ
  page_count d = length d.pages

  -- `while pages.len() > max { pages.remove(0); page_params.remove(0) }`. `none` is the panic of
  -- `remove` on an empty vector.
  unfoldable pub trim_front : ℕ → List T → List P → Option (InfiniteData T P)
  trim_front max [] params = some (record { pages = []; page_params = params })
  trim_front max (x ∷ pages) [] =
      if ltb max (length (x ∷ pages))
      then none
      else some (record { pages = x ∷ pages; page_params = [] })
  trim_front max (x ∷ pages) (q ∷ params) =
      let rest = trim_front max pages params in
      if ltb max (length (x ∷ pages))
      then rest
      else some (record { pages = x ∷ pages; page_params = q ∷ params })

  -- `while pages.len() > max { pages.pop(); page_params.pop() }`, with fuel; each turn takes a page,
  -- so that as much fuel as there are pages is enough.
  unfoldable pub trim_back : ℕ → ℕ → InfiniteData T P → InfiniteData T P
  trim_back zero max d = d
  trim_back (suc fuel) max d =
      let rest =
        trim_back fuel max
          (record { pages = init_of d.pages; page_params = init_of d.page_params }) in
      if ltb max (length d.pages) then rest else d

  -- The page arithmetic of `append_infinite_page`.
  unfoldable pub append_page : Option ℕ → T → P → InfiniteData T P → Option (InfiniteData T P)
  unfolding push_page trim_front
  append_page none page param d = some (push_page page param d)
  append_page (some max) page param d =
      trim_front max (push_page page param d).pages (push_page page param d).page_params

  -- The page arithmetic of `prepend_infinite_page`.
  unfoldable pub prepend_page : Option ℕ → T → P → InfiniteData T P → InfiniteData T P
  unfolding trim_back
  prepend_page none page param d = record {
    pages = page ∷ d.pages;
    page_params = param ∷ d.page_params;
  }
  prepend_page (some max) page param d =
      trim_back (length (page ∷ d.pages)) max
        (record { pages = page ∷ d.pages; page_params = param ∷ d.page_params })

  -- `get(page, &pages).is_some()`, where both the function and the page are there.
  abbrev pub has_param : Option (T → List T → Option P) → Option T → List T → Bool
  has_param none page pages = false
  has_param (some get) none pages = false
  has_param (some get) (some page) pages = is_some (get page pages)

  -- `has_next_page` and `has_previous_page` of the query, given its function for the parameter.
  unfoldable pub has_next_page : Option (T → List T → Option P) → Option (InfiniteData T P) → Bool
  has_next_page get none = false
  has_next_page get (some d) = has_param get (get_last? d.pages) d.pages

  unfoldable pub has_previous_page :
      Option (T → List T → Option P) → Option (InfiniteData T P) → Bool
  has_previous_page get none = false
  has_previous_page get (some d) = has_param get (head? d.pages) d.pages
