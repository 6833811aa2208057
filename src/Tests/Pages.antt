-- ===== src/Tests/Pages.antt =====
-- Pages and their requests (src/client.rs and src/infinite_executor.rs) at concrete inputs.
use rs_query.Base.{ℕ, ◌+◌, text_eq, ◌≡◌, refl, inl, true, false, none, some, [], ◌∷◌}
use rs_query.Key.{QueryKey}
use rs_query.Key.Join.{joined}
use rs_query.Options.{default_options}
use rs_query.Infinite.{InfiniteData}
use rs_query.Map.Assoc.{assoc_map}
use rs_query.Bus
use rs_query.Client.Core
use rs_query.Client.Core.{CacheEntry, Tables, Client, QueryStateUpdate, is_in_flight, set_in_flight}
use rs_query.Client.Pages.{Payload, get_infinite_data}
use rs_query.Client.Paging.{appended}
use rs_query.InfiniteExecutor.{
  SlotInner, subscribing, try_send, recv_step, InfiniteLoopParams, serve, accepts, next_page,
  previous_page,
}
use rs_query.InfiniteExecutor.Requests.{send_requests, request_lost}
use rs_query.InfiniteExecutor.Serving.{serve_next}

abbrev Pages : Type 0
Pages = InfiniteData ℕ ℕ

abbrev tables : Tables Pages
tables = record {
  cache = assoc_map (CacheEntry Pages);
  in_flight = assoc_map ℕ;
  subscribers = assoc_map (Bus.Shared QueryStateUpdate);
}

abbrev payload : Payload Pages Pages
payload = record { type_id = 1; inject = λ d. d; project = λ d. d; project-inject = λ d. refl }

abbrev feed : QueryKey
feed = joined ((b'f' ∷ []) ∷ [])

abbrev two_pages : Pages
two_pages = record { pages = 10 ∷ 20 ∷ []; page_params = 1 ∷ 2 ∷ [] }

abbrev feed_entry : CacheEntry Pages
feed_entry = record {
  data_of = record { type_id = 1; address = 0; value = two_pages };
  type_id = 1;
  fetched_at = 5;
  last_accessed = 5;
  options = default_options;
  is_stale = false;
}

abbrev holding : Client tables
holding = record (Core.new tables) {
  cache = tables.cache.insert (b'f' ∷ []) feed_entry tables.cache.empty;
}

abbrev empty_slot : SlotInner
empty_slot = record {
  slot = none;
  release = record { value = true; version = 0; alive = true; next_id = 2; waiters = [] };
  sender_alive = true;
}

request_lost_example :
    let s1 = (try_send next_page empty_slot).0 in
    let (s2, phase) = recv_step s1 subscribing in
    let s3 = send_requests (previous_page ∷ []) s2 in
    (s3.slot ≡ some next_page) × ((recv_step s3 phase).1 ≡ phase)
request_lost_example = request_lost next_page (previous_page ∷ []) empty_slot refl refl

abbrev by_last : InfiniteLoopParams ℕ ℕ
by_last = record {
  key = feed;
  options = default_options;
  initial_param = 0;
  get_next_fn = some (λ page pages. some 3);
  get_prev_fn = none;
  max_pages = some 2;
}

serve_next_example :
    (c' : Client tables) × (serve tables payload by_last 7 4
        (λ n. inl (n + 100))
        (λ c. c)
        next_page
        holding
      ≡ some c')
    × (get_infinite_data tables payload feed c' ≡ some (appended 2 103 3 two_pages))
    × (is_in_flight tables (b'f' ∷ []) c' ≡ false)
unfolding assoc_map text_eq accepts Core.new set_in_flight
serve_next_example =
    serve_next tables payload by_last 7 4 2 (λ n. inl (n + 100)) (λ c. c) holding 3 103 feed_entry
      refl refl refl (record { entry = refl; entry_type = refl; value_type = refl }) refl
