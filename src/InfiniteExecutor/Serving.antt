-- ===== src/InfiniteExecutor/Serving.antt =====
-- What a turn of the loop leaves in the client.
use mathlib.Core.Option
use rs_query.Base.{ℕ, ◌≡◌, ap, true, false, none, some, arith, ◌⊎◌, inl, inr}
use rs_query.State.{QueryError}
use rs_query.Infinite.{InfiniteData}
use rs_query.Infinite.Pages.{Aligned}
use rs_query.Client.Core.{CacheEntry, Tables, Client, is_in_flight, set_in_flight, clear_in_flight}
use rs_query.Client.Pages.{Payload, get_infinite_data, append_infinite_page}
use rs_query.Client.Data.{get_query_data}
use rs_query.Client.Flight.{is_in_flight-clear_in_flight}
use rs_query.Client.Paging.{appended, HasPages, append_infinite_page_lem}
use rs_query.InfiniteExecutor.{
  PageRequest, next_page, InfiniteLoopParams, page_param, accepts, store_page, serve,
}

module _ {V T P : Type 0} (M : Tables V) (I : Payload V (InfiniteData T P))
    (q : InfiniteLoopParams T P) where
  accepts-none :
      (request : PageRequest) (c : Client M) (d : InfiniteData T P)
      → (get_infinite_data M I q.key c ≡ none)
        ⊎ ((is_in_flight M q.key.cache_key c ≡ true)
            ⊎ ((get_infinite_data M I q.key c ≡ some d) × (page_param q request d ≡ none)))
      → accepts M I q request c ≡ none
  unfolding accepts
  accepts-none request c d (inl e) = rw (e, accepts)
  accepts-none request c d (inr (inl f)) = ground arith
  accepts-none request c d (inr (inr (e, p))) = rw (e, accepts) (ground arith)

  -- A request is dropped, and the client left as it is, while a fetch of the key is in flight, before
  -- there are data, and where there is no further page in its direction.
  pub serve_dropped :
      (now task : ℕ) (fetch : P → T ⊎ QueryError) (meanwhile : Client M → Client M)
      (request : PageRequest) (c : Client M) (d : InfiniteData T P)
      → (get_infinite_data M I q.key c ≡ none)
        ⊎ ((is_in_flight M q.key.cache_key c ≡ true)
            ⊎ ((get_infinite_data M I q.key c ≡ some d) × (page_param q request d ≡ none)))
      → serve M I q now task fetch meanwhile request c ≡ some c
  unfolding serve
  serve_dropped now task fetch meanwhile request c d h = rw (accepts-none request c d h, serve)

  -- A page that is fetched on a request for the next one is appended to the pages that are there when
  -- the fetch ends.
  pub serve_next :
      (now task max : ℕ) (fetch : P → T ⊎ QueryError) (meanwhile : Client M → Client M)
      (c : Client M) (param : P) (page : T) (e : CacheEntry V)
      → q.max_pages ≡ some max
      → accepts M I q next_page c ≡ some param
      → fetch param ≡ inl page
      → let c1 = meanwhile (set_in_flight M q.key.cache_key task c) in
        HasPages M I c1 q.key e
        → Aligned (I.project e.data_of.value)
        → (c' : Client M) × (serve M I q now task fetch meanwhile next_page c ≡ some c')
          × (get_infinite_data M I q.key c'
              ≡ some (appended max page param (I.project e.data_of.value)))
          × (is_in_flight M q.key.cache_key c' ≡ false)
  unfolding serve store_page get_infinite_data get_query_data clear_in_flight
  serve_next now task max fetch meanwhile c param page e m a f h al =
      let c1 = meanwhile (set_in_flight M q.key.cache_key task c) in
      let (c2, appends, read, flag) =
        append_infinite_page_lem M I now max q.key page param c1 e h al in
      let limited : append_infinite_page M I now q.key page param q.max_pages c1
          ≡ some (c2, some (appended max page param (I.project e.data_of.value))) =
        rw m appends in
      (
        clear_in_flight M q.key.cache_key c2,
        rw (a, serve)
            (rw (f, store_page)
              (ap (λ o. Option.map (clear_in_flight M q.key.cache_key) (Option.map (λ r. r.0) o))
                limited)),
        read,
        is_in_flight-clear_in_flight M q.key.cache_key c2,
      )
