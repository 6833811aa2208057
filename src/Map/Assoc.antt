-- ===== src/Map/Assoc.antt =====
-- A map that meets the interface: association lists in which no key stands twice.
use rs_query.Base.{
  ◌≡◌, refl, subst, ◌∙◌, Bool-cases, inl, inr, Bool, none, some, List, [], ◌∷◌, arith, Text,
  text_eq, text_eq_iff, text_eq_self, if◌then◌else◌,
}
use rs_query.Map.{kept, find, Distinct, DashMap}

abbrev pub Table : Type 0 → Type 0
Table V = (m : List (Text × V)) × Distinct m

module _ {V : Type 0} where
  pub delete : Text → List (Text × V) → List (Text × V)
  delete k [] = []
  delete k ((j, v) ∷ m) = let rest = delete k m in if text_eq k j then rest else (j, v) ∷ rest

  pub filter_entries : (Text → V → Bool) → List (Text × V) → List (Text × V)
  filter_entries p [] = []
  filter_entries p ((j, v) ∷ m) =
      let rest = filter_entries p m in if p j v then (j, v) ∷ rest else rest

  pub find-delete :
      (k j : Text) (m : List (Text × V))
      → find j (delete k m) ≡ (if text_eq k j then none else find j m)
  unfolding delete
  find-delete k j [] = ground arith
  find-delete k j ((i, v) ∷ m) =
      ground (arith, find-delete k j m, text_eq_iff k i, text_eq_iff i j, text_eq_iff k j)

  pub find-filter :
      (p : Text → V → Bool) (k : Text) (m : List (Text × V))
      → Distinct m
      → find k (filter_entries p m) ≡ kept p k (find k m)
  unfolding filter_entries
  find-filter p k [] d = refl
  find-filter p k ((j, v) ∷ m) d = elim (Bool-cases (text_eq j k)) [
    | inl e ↦
        let same : j ≡ k = (text_eq_iff j k).0 e in
        ground (arith, same, find-filter p k m d.1, subst (λ z. find z m ≡ none) same d.0)
    | inr e ↦ ground (arith, find-filter p k m d.1)
  ]

  pub delete-Distinct : (k : Text) (m : List (Text × V)) → Distinct m → Distinct (delete k m)
  unfolding delete
  delete-Distinct k [] d = tt
  delete-Distinct k ((j, v) ∷ m) d = ground (arith, delete-Distinct k m d.1, find-delete k j m)

  pub filter-Distinct :
      (p : Text → V → Bool) (m : List (Text × V)) → Distinct m → Distinct (filter_entries p m)
  unfolding filter_entries
  filter-Distinct p [] d = tt
  filter-Distinct p ((j, v) ∷ m) d = ground (arith, filter-Distinct p m d.1, find-filter p j m d.1)

  pub put : Text → V → Table V → Table V
  unfolding delete
  put k v t = ((k, v) ∷ delete k t.0, put_distinct k t)
    where
      put_distinct :
          (k : Text) (t : Table V) → (find k (delete k t.0) ≡ none) × Distinct (delete k t.0)
      put_distinct k t =
          (find-delete k k t.0 ∙ ground (arith, text_eq_self k), delete-Distinct k t.0 t.1)

  pub find-put :
      (k j : Text) (v : V) (t : Table V)
      → find j (put k v t).0 ≡ (if text_eq k j then some v else find j t.0)
  unfolding put
  find-put k j v t = ground (arith, find-delete k j t.0)

-- The map that shows that the interface can be met.
unfoldable pub assoc_map : (V : Type 0) → DashMap V
unfolding put delete filter_entries
assoc_map V = record {
  Map = Table V;
  empty = ([], tt);
  get = λ k t. find k t.0;
  insert = put;
  remove = λ k t. (delete k t.0, delete-Distinct k t.0 t.1);
  retain = λ p t. (filter_entries p t.0, filter-Distinct p t.0 t.1);
  iter = λ t. t.0;
  get-empty = λ k. refl;
  get-insert = find-put;
  get-remove = λ k j t. find-delete k j t.0;
  get-retain = λ p k t. find-filter p k t.0 t.1;
  find-iter = λ k t. refl;
  iter-Distinct = λ t. t.1;
}
