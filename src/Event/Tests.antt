-- ===== src/Event/Tests.antt =====
-- event at a store of two awaiters of numbers.
use getstream_go_webrtc.Base.{ℕ, ◌≡◌, refl, true, false, none, some, [], ◌∷◌, ltb, if◌then◌else◌}
use getstream_go_webrtc.Event.Store.{
  Awaiter, Store, intercept, add_interceptor, remove_interceptor, without,
}
use getstream_go_webrtc.Event.Delivery.{IsDelivered, intercept_lem}

abbrev above : ℕ → Awaiter ℕ
above n = record {
  select = λ e. if ltb n e then some e else none;
  events = [];
  is_closed = false;
  timeout = false;
}

abbrev store : Store ℕ
store = record {
  awaiters = above 3 ∷ above 9 ∷ (record (above 20) { timeout = true }) ∷ [];
  interceptors = (record { fn = 40; id = 1 }) ∷ [];
  next_id = 1;
}

remove-add_interceptor :
    remove_interceptor ℕ 2 (add_interceptor ℕ 41 store).1 ≡ record store { next_id = 2 }
unfolding remove_interceptor add_interceptor without
remove-add_interceptor = refl

intercept_lem_example :
    let (called, dropped, s') = intercept ℕ 5 store in
    (called ≡ 40 ∷ [])
    × IsDelivered ℕ 5 store.awaiters (s'.awaiters, dropped)
    × (s'.interceptors ≡ store.interceptors)
intercept_lem_example = intercept_lem ℕ 5 store ((refl, refl), ((refl, refl), ((refl, refl), tt)))
