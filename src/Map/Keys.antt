-- ===== src/Map/Keys.antt =====
-- The keys of the entries that pass a test, and loops that write at each key of a list.
use mathlib.Core.Option
use rs_query.Base.{
  ◌≡◌, refl, subst, for_each, ap, ◌∙◌, Bool, true, false, ◌||◌, Option, none, some, List, [], ◌∷◌,
  arith, Text, text_eq, text_eq_iff, if◌then◌else◌, Bool-cases, Option-cases, inl, inr,
}
use rs_query.Map.{find, contains, Distinct, DashMap}

module _ {V : Type 0} where
  -- Does the value found at a key pass?
  abbrev pub passes : (Text → V → Bool) → Text → Option V → Bool
  passes p k none = false
  passes p k (some v) = p k v

  -- `iter().filter_map(...)` down to the keys.
  unfoldable pub keys_where : (Text → V → Bool) → List (Text × V) → List Text
  keys_where p [] = []
  keys_where p ((k, v) ∷ m) = let rest = keys_where p m in if p k v then k ∷ rest else rest

  contains_absent :
      (p : Text → V → Bool) (k : Text) (m : List (Text × V))
      → find k m ≡ none
      → contains k (keys_where p m) ≡ false
  unfolding keys_where
  contains_absent p k [] h = refl
  contains_absent p k ((j, v) ∷ m) h = ground (arith, contains_absent p k m)

  contains-keys_where_list :
      (p : Text → V → Bool) (k : Text) (m : List (Text × V))
      → Distinct m
      → contains k (keys_where p m) ≡ passes p k (find k m)
  unfolding keys_where
  contains-keys_where_list p k [] d = refl
  contains-keys_where_list p k ((j, v) ∷ m) d = elim (Bool-cases (text_eq j k)) [
    | inl e ↦
        let same : j ≡ k = (text_eq_iff j k).0 e in
        ground (arith, same, contains_absent p k m (subst (λ z. find z m ≡ none) same d.0))
    | inr e ↦ ground (arith, contains-keys_where_list p k m d.1)
  ]

  -- A key is collected exactly when its entry passes the test.
  pub contains-keys_where :
      (D : DashMap V) (p : Text → V → Bool) (k : Text) (m : D.Map)
      → contains k (keys_where p (D.iter m)) ≡ passes p k (D.get k m)
  contains-keys_where D p k m =
      contains-keys_where_list p k (D.iter m) (D.iter-Distinct m)
      ∙ ap (passes p k) (D.find-iter k m)

module _ {V : Type 0} (D : DashMap V) where
  open D use {Map, get, insert, remove, get-insert, get-remove}

  -- `if let Some(mut entry) = map.get_mut(key) { *entry = f(*entry) }`.
  unfoldable pub get_mut : (V → V) → Text → Map → Map
  get_mut f k m = elim (get k m) [ none ↦ m | some v ↦ insert k (f v) m ]

  pub get-get_mut :
      (f : V → V) (k j : Text) (m : Map)
      → get j (get_mut f k m) ≡ (if text_eq k j then Option.map f (get j m) else get j m)
  unfolding get_mut
  get-get_mut f k j m = elim (Option-cases (get k m)) [
    | inl e ↦ ground (arith, e, text_eq_iff k j)
    | inr (v, e) ↦ ground (arith, e, text_eq_iff k j, get-insert k j (f v) m)
  ]

  -- Writing at each key of a list, by an `f` for which once is enough.
  pub get-for_each_mut :
      (f : V → V)
      → ((v : V) → f (f v) ≡ f v)
      → (keys : List Text) (k : Text) (m : Map)
      → get k (for_each keys (get_mut f) m)
        ≡ (if contains k keys then Option.map f (get k m) else get k m)
  unfolding for_each
  get-for_each_mut f twice [] k m = refl
  get-for_each_mut f twice (j ∷ keys) k m =
      get-for_each_mut f twice keys k (get_mut f j m)
      ∙ twice_at (get k (get_mut f j m)) (text_eq j k) (get-get_mut f j k m)
    where
      again : (o : Option V) → Option.map f (Option.map f o) ≡ Option.map f o
      again none = refl
      again (some v) = ap some (twice v)

      twice_at :
          (o : Option V) (hit : Bool)
          → o ≡ (if hit then Option.map f (get k m) else get k m)
          → (if contains k keys then Option.map f o else o)
            ≡ (if hit || contains k keys then Option.map f (get k m) else get k m)
      twice_at o true e = ground (arith, again (get k m))
      twice_at o false e = ground arith

  pub get-for_each_remove :
      (keys : List Text) (k : Text) (m : Map)
      → get k (for_each keys remove m) ≡ (if contains k keys then none else get k m)
  unfolding for_each
  get-for_each_remove [] k m = refl
  get-for_each_remove (j ∷ keys) k m =
      ground (arith, get-for_each_remove keys k (remove j m), get-remove j k m)

  -- `if let Some(v) = map.remove(key) { ... }`, for what it does to the map.
  unfoldable pub take_out : Text → Map → Map
  take_out k m = elim (get k m) [ none ↦ m | some v ↦ remove k m ]

  pub get-take_out :
      (k j : Text) (m : Map) → get j (take_out k m) ≡ (if text_eq k j then none else get j m)
  unfolding take_out
  get-take_out k j m = ground (arith, text_eq_iff k j, get-remove k j m)

  pub get-for_each-take_out :
      (keys : List Text) (k : Text) (m : Map)
      → get k (for_each keys take_out m) ≡ (if contains k keys then none else get k m)
  unfolding for_each
  get-for_each-take_out [] k m = refl
  get-for_each-take_out (j ∷ keys) k m =
      ground (arith, get-for_each-take_out keys k (take_out j m), get-take_out j k m)
