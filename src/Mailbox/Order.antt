-- ===== src/Mailbox/Order.antt =====
-- Messages come out in the order in which they went in, before the exception.
use native.Mathlib.Nat.{zero-add, suc-add}
use raknet_python.Prelude.{
  ◌∙◌, ℕ, zero, suc, ◌+◌, ◌≡◌, refl, ap, Option, some, List, [], ◌∷◌, ◌++◌, map, replicate, length,
  arith, if◌then◌else◌,
}
use raknet_python.Raw.Interface.{Bytes}
use raknet_python.Exceptions.{ConnectionClosed, is_closed_ok}
use raknet_python.Mailbox.{Mailbox, Outcome, received, raised, get, stops, raises, iterate}

-- The outcomes of so many calls of `get`, with no other thread at work.
pub get_times : ℕ → Option ℕ → Mailbox → List Outcome × Mailbox
unfolding get
get_times zero timeout self = ([], self)
get_times (suc n) timeout self =
    let (outcome, self') = get timeout [] self in
    let (outcomes, self'') = get_times n timeout self' in (outcome ∷ outcomes, self'')

abbrev mailbox : List Bytes → ConnectionClosed → Option ℕ → Mailbox
mailbox items e maxsize = record { items = items; exc = some e; maxsize = maxsize }

reclosed :
    (self : Mailbox) (e : ConnectionClosed)
    → self.exc ≡ some e
    → self ≡ mailbox self.items e self.maxsize
reclosed self e h = ground arith

get_times_closed :
    (k : ℕ) (timeout : Option ℕ) (e : ConnectionClosed) (maxsize : Option ℕ)
    → (get_times k timeout (mailbox [] e maxsize)).0 ≡ replicate k (raised e)
unfolding get_times
get_times_closed zero timeout e maxsize = refl
get_times_closed (suc k) timeout e maxsize =
    ap (◌∷◌ (raised e)) (get_times_closed k timeout e maxsize)

get_times_mailbox :
    (items : List Bytes) (k : ℕ) (timeout : Option ℕ) (e : ConnectionClosed) (maxsize : Option ℕ)
    → (get_times (length items + k) timeout (mailbox items e maxsize)).0
      ≡ map received items ++ replicate k (raised e)
unfolding get_times
get_times_mailbox [] k timeout e maxsize = rw zero-add (get_times_closed k timeout e maxsize)
get_times_mailbox (item ∷ items) k timeout e maxsize =
    rw suc-add (ap (◌∷◌ (received item)) (get_times_mailbox items k timeout e maxsize))

-- A closed mailbox first hands out its messages, all of them and in order, whatever the timeout;
-- every later `get` raises the exception that it was closed with.
pub get_times_drains :
    (self : Mailbox) (k : ℕ) (timeout : Option ℕ) (e : ConnectionClosed)
    → self.exc ≡ some e
    → (get_times (length self.items + k) timeout self).0
      ≡ map received self.items ++ replicate k (raised e)
get_times_drains self k timeout e h =
    ap (λ m. (get_times (length self.items + k) timeout m).0) (reclosed self e h)
    ∙ get_times_mailbox self.items k timeout e self.maxsize

iterate_mailbox :
    (items : List Bytes) (k : ℕ) (e : ConnectionClosed) (maxsize : Option ℕ)
    → iterate (suc (length items + k)) (mailbox items e maxsize)
      ≡ (items, if is_closed_ok e then stops else raises e)
unfolding iterate
iterate_mailbox [] k e maxsize = refl
iterate_mailbox (item ∷ items) k e maxsize =
    rw suc-add (ground (arith, iterate_mailbox items k e maxsize))

-- Iterating over a closed connection yields its messages, all of them and in order. It then stops
-- if the connection was closed with `ConnectionClosedOK`, and else raises the exception.
pub iterate_drains :
    (self : Mailbox) (k : ℕ) (e : ConnectionClosed)
    → self.exc ≡ some e
    → iterate (suc (length self.items + k)) self
      ≡ (self.items, if is_closed_ok e then stops else raises e)
iterate_drains self k e h =
    ap (iterate (suc (length self.items + k))) (reclosed self e h)
    ∙ iterate_mailbox self.items k e self.maxsize
