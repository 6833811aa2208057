-- ===== src/Key/Prefix.antt =====
-- Segment-wise prefixes (`starts_with`) against prefixes of the cache key's text, by which
-- `QueryClient::invalidate_queries` selects.
use rs_query.Base.{
  ◌≡◌, refl, sym, ap, ◌∙◌, ◌↔◌, true, List, [], ◌∷◌, ◌++◌, append_assoc, append-nil, arith, Text,
  length, take, drop, take-append, take-append-drop, length-append, texts_eq_iff, text_starts_with,
  text_starts_with-append, text_starts_with_self,
}
use rs_query.Key.{QueryKey, separator, join, starts_with, IsJoined}

-- The key continues the prefix.
abbrev pub Extends : List Text → List Text → Type 0
Extends l p = (rest : List Text) × (l ≡ p ++ rest)

starts_with-Extends : (k p : QueryKey) → starts_with k p ≡ true → Extends k.segments p.segments
unfolding starts_with
starts_with-Extends k p h =
    let n = length p.segments in
    let e : take n k.segments ≡ p.segments =
      (texts_eq_iff (take n k.segments) p.segments).0 (ground arith) in
    (
      drop n k.segments,
      sym (ap (λ t. t ++ drop n k.segments) (sym e) ∙ take-append-drop n k.segments),
    )

Extends-starts_with : (k p : QueryKey) → Extends k.segments p.segments → starts_with k p ≡ true
unfolding starts_with
Extends-starts_with k p (rest, e) =
    rw (e, length-append p.segments rest, take-append p.segments rest)
      (ground (arith, texts_eq_iff p.segments p.segments))

-- `starts_with` holds exactly for the keys whose segments are those of the prefix followed by others,
-- or by none.
pub starts_with_iff : (k p : QueryKey) → (starts_with k p ≡ true) ↔ Extends k.segments p.segments
starts_with_iff k p = (starts_with-Extends k p, Extends-starts_with k p)

join-append :
    (s : Text) (l : List Text) (t : Text) (rest : List Text)
    → join ((s ∷ l) ++ t ∷ rest) ≡ join (s ∷ l) ++ (separator ++ join (t ∷ rest))
join-append s [] t rest = refl
join-append s (u ∷ l) t rest =
    ap (λ z. s ++ (separator ++ z)) (join-append u l t rest)
    ∙ sym (append_assoc s (separator ++ join (u ∷ l)) (separator ++ join (t ∷ rest)))

join_prefix : (p rest : List Text) → text_starts_with (join p) (join (p ++ rest)) ≡ true
join_prefix [] rest = text_starts_with-append [] (join rest)
join_prefix (s ∷ l) [] = rw (append-nil l) (text_starts_with_self (join (s ∷ l)))
join_prefix (s ∷ l) (t ∷ rest) =
    rw (join-append s l t rest)
      (text_starts_with-append (join (s ∷ l)) (separator ++ join (t ∷ rest)))

-- A key that continues the prefix by segments continues it as text too, so that
-- `invalidate_queries` reaches every key that the prefix filter selects.
starts_with-text :
    (k p : QueryKey)
    → IsJoined k
    → IsJoined p
    → starts_with k p ≡ true
    → text_starts_with p.cache_key k.cache_key ≡ true
starts_with-text k p jk jp h =
    let (rest, e) = starts_with-Extends k p h in rw (jk, jp, e) (join_prefix p.segments rest)
