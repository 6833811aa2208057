-- ===== src/Map.antt =====
-- `DashMap<String, V>` of the crate dashmap, which src/client.rs keeps its tables in: its operations
-- and the documented behaviour that the client relies on. Each call is one step.
pub mod Keys
pub mod Assoc
use mathlib.Core.Path.{◌≡◌}
use rs_query.Base.{
  Bool, true, false, ◌||◌, Option, none, some, List, [], ◌∷◌, Text, All, text_eq, if◌then◌else◌,
}

-- What `retain` leaves of the value found at a key.
abbrev pub kept : {V : Type 0} → (Text → V → Bool) → Text → Option V → Option V
kept p k none = none
kept p k (some v) = if p k v then some v else none

-- The value of the first entry with the key.
abbrev pub find : {V : Type 0} → Text → List (Text × V) → Option V
find k [] = none
find k ((j, v) ∷ m) = if text_eq j k then some v else find k m

abbrev pub contains : Text → List Text → Bool
contains k [] = false
contains k (j ∷ l) = text_eq j k || contains k l

-- No key stands twice.
abbrev pub Distinct : {V : Type 0} → List (Text × V) → Type 0
Distinct [] = Unit
Distinct ((k, v) ∷ m) = (find k m ≡ none) × Distinct m

pub record DashMap (V : Type 0) : Type 1 where
  pub Map : Type 0
  pub empty : Map
  pub get : Text → Map → Option V
  pub insert : Text → V → Map → Map
  pub remove : Text → Map → Map
  pub retain : (Text → V → Bool) → Map → Map
  pub iter : Map → List (Text × V)
  pub get-empty : (k : Text) → get k empty ≡ none
  pub get-insert :
      (k j : Text) (v : V) (m : Map)
      → get j (insert k v m) ≡ (if text_eq k j then some v else get j m)
  pub get-remove :
      (k j : Text) (m : Map) → get j (remove k m) ≡ (if text_eq k j then none else get j m)
  pub get-retain :
      (p : Text → V → Bool) (k : Text) (m : Map) → get k (retain p m) ≡ kept p k (get k m)
  pub find-iter : (k : Text) (m : Map) → find k (iter m) ≡ get k m
  pub iter-Distinct : (m : Map) → Distinct (iter m)
