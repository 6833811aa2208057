-- ===== src/Client/Flight.antt =====
-- The in-flight table by key.
use rs_query.Base.{ℕ, ◌≡◌, ◌∙◌, true, false, Option, none, some, Text, text_eq_self, is_some}
use rs_query.Client.Core.{Tables, Client, is_in_flight, set_in_flight, clear_in_flight}

module _ {V : Type 0} (M : Tables V) where
  lookup :
      (key : Text) (c : Client M) (o : Option ℕ)
      → M.in_flight.get key c.in_flight ≡ o
      → is_in_flight M key c ≡ is_some o
  unfolding is_in_flight
  lookup key c none e = rw (e, is_in_flight)
  lookup key c (some t) e = rw (e, is_in_flight)

  pub is_in_flight-clear_in_flight :
      (key : Text) (c : Client M) → is_in_flight M key (clear_in_flight M key c) ≡ false
  unfolding clear_in_flight
  is_in_flight-clear_in_flight key c =
      lookup key (clear_in_flight M key c) none
        (M.in_flight.get-remove key key c.in_flight ∙ rw (text_eq_self key))

  pub is_in_flight-set_in_flight :
      (key : Text) (task : ℕ) (c : Client M)
      → is_in_flight M key (set_in_flight M key task c) ≡ true
  unfolding set_in_flight
  is_in_flight-set_in_flight key task c =
      lookup key (set_in_flight M key task c) (some task)
        (M.in_flight.get-insert key key task c.in_flight ∙ rw (text_eq_self key))
