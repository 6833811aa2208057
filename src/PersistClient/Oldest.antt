-- ===== src/PersistClient/Oldest.antt =====
-- What `remove_oldest_query` takes out of a state.
use rs_query.Base.{
  ℕ, suc, ◌≤◌, ◌<◌, ◌≡◌, refl, ap, ◌∙◌, true, false, some, List, [], ◌∷◌, ◌++◌, length, All,
  All-mono, ltb, Bool-cases, inl, inr, arith, append_assoc, append-nil, ◌⊎◌, length-append, ltb→lt,
}
use rs_query.Hydration.{DehydratedQuery, DehydratedState}
use rs_query.PersistClient.{
  age_key, least_index, oldest_index, remove_at, remove_index, remove_oldest_query,
}

-- A query with the least key of a list, the first one of them: where it stands.
record First (qs : List DehydratedQuery) (i : ℕ) : Type 0 where
  before : List DehydratedQuery
  oldest : DehydratedQuery
  after : List DehydratedQuery
  splits : qs ≡ before ++ oldest ∷ after
  place : i ≡ length before
  newer : All (λ q. age_key oldest < age_key q) before
  no_older : All (λ q. age_key oldest ≤ age_key q) after

All-append {ℓ κ} :
    {A : Type ℓ} (P : A → Type κ) (xs ys : List A) → All P xs → All P ys → All P (xs ++ ys)
All-append P [] ys a b = b
All-append P (x ∷ xs) ys a b = (a.0, All-append P xs ys a.1 b)

remove_at-append {ℓ} :
    {A : Type ℓ} (xs : List A) (x : A) (ys : List A)
    → remove_at (length xs) (xs ++ x ∷ ys) ≡ xs ++ ys
remove_at-append [] x ys = refl
remove_at-append (y ∷ xs) x ys = ap (◌∷◌ y) (remove_at-append xs x ys)

-- A query that is older than all before it, and one that is not.
abbrev First-less :
    (qs : List DehydratedQuery) (z : DehydratedQuery) {i : ℕ} (f : First qs i)
    → age_key z < age_key f.oldest
    → First (qs ++ z ∷ []) (length qs)
First-less qs z f less = record {
  before = qs;
  oldest = z;
  after = [];
  splits = refl;
  place = refl;
  newer = rw f.splits (
      All-append _ f.before (f.oldest ∷ f.after) (All-mono (λ q h. omega arith) f.before f.newer)
        (less, All-mono (λ q h. omega arith) f.after f.no_older));
  no_older = tt;
}

abbrev First-more :
    (qs : List DehydratedQuery) (z : DehydratedQuery) {i : ℕ} (f : First qs i)
    → age_key f.oldest ≤ age_key z
    → First (qs ++ z ∷ []) i
First-more qs z f more = record {
  before = f.before;
  oldest = f.oldest;
  after = f.after ++ z ∷ [];
  splits = ap (λ l. l ++ z ∷ []) f.splits ∙ append_assoc f.before (f.oldest ∷ f.after) (z ∷ []);
  place = f.place;
  newer = f.newer;
  no_older = All-append _ f.after (z ∷ []) f.no_older (more, tt);
}

length-snoc {ℓ} : {A : Type ℓ} (xs : List A) (x : A) → length (xs ++ x ∷ []) ≡ suc (length xs)
length-snoc xs x = omega (arith, length-append xs (x ∷ []))

-- The fold over the rest of a list.
least_index-First :
    (qs : List DehydratedQuery) (zs : List DehydratedQuery) (i : ℕ) (f : First qs i)
    → First (qs ++ zs) (least_index i (age_key f.oldest) (length qs) zs)
unfolding least_index
least_index-First qs [] i f = rw (append-nil qs) f
least_index-First qs (z ∷ zs) i f = elim (Bool-cases (ltb (age_key z) (age_key f.oldest))) [
  | inl less ↦
      let older = ltb→lt (age_key z) (age_key f.oldest) less in
      rw (less, ← append_assoc qs (z ∷ []) zs, ← length-snoc qs z)
        (least_index-First (qs ++ z ∷ []) zs (length qs) (First-less qs z f older))
  | inr more ↦
      rw (more, ← append_assoc qs (z ∷ []) zs, ← length-snoc qs z)
        (least_index-First (qs ++ z ∷ []) zs i (First-more qs z f (ground arith)))
]

abbrev pub LosesOldest : DehydratedState → Type 0
LosesOldest s =
    ((s.queries ≡ []) × (remove_oldest_query s ≡ (s, false)))
    ⊎ ((before after : List DehydratedQuery) × (oldest : DehydratedQuery) × (s.queries
          ≡ before ++ oldest ∷ after)
        × (remove_oldest_query s ≡ (record s { queries = before ++ after }, true))
        × All (λ q. age_key oldest < age_key q) before
        × All (λ q. age_key oldest ≤ age_key q) after)

-- `remove_oldest_query` answers `false`, and leaves the state as it is, just if there is no query. Else
-- the queries lose one that every query before it is younger than and no query after it is older than,
-- the others stay in their order, and the time and the mutations of the state stay as they are.
pub remove_oldest_query_lem : (s : DehydratedState) → LosesOldest s
unfolding remove_oldest_query
remove_oldest_query_lem s = cases s.queries refl
  where
    found :
        (qs : List DehydratedQuery) (i : ℕ)
        → s.queries ≡ qs
        → oldest_index qs ≡ some i
        → First qs i
        → LosesOldest s
    found qs i e at f =
        let index : remove_oldest_query s ≡ remove_index s (some i) =
          ap (λ l. remove_index s (oldest_index l)) e ∙ ap (remove_index s) at in
        inr (
          f.before,
          f.after,
          f.oldest,
          e ∙ f.splits,
          index
              ∙ ap (λ l. (record s { queries = l }, true))
                  (ap (remove_at i) (e ∙ f.splits)
                    ∙ rw f.place (remove_at-append f.before f.oldest f.after)),
          f.newer,
          f.no_older,
        )

    cases : (qs : List DehydratedQuery) → s.queries ≡ qs → LosesOldest s
    cases [] e = inl (e, ap (λ l. remove_index s (oldest_index l)) e)
    cases (q ∷ qs) e =
        let only : First (q ∷ []) 0 = record {
          before = [];
          oldest = q;
          after = [];
          splits = refl;
          place = refl;
          newer = tt;
          no_older = tt;
        } in
        found (q ∷ qs) (least_index 0 (age_key q) 1 qs) e refl
          (least_index-First (q ∷ []) qs 0 only)
