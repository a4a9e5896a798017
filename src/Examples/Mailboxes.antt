-- ===== src/Examples/Mailboxes.antt =====
-- Runs of the mailbox.
use raknet_python.Prelude.{◌++◌, true, List, ◌≡◌, refl, true, none, some, List, [], ◌∷◌}
use raknet_python.Exceptions.{closed_ok, closed_error, is_closed_ok}
use raknet_python.Mailbox.{
  Mailbox, Action, puts, closes, takes, Outcome, received, raised, get, poll, IterationEnd, stops,
  iterate,
}
use raknet_python.Mailbox
use raknet_python.Mailbox.Order.{get_times, get_times_drains, iterate_drains}
use raknet_python.Mailbox.Bounds.{put_all, accepted, put_all-admitted}
use raknet_python.Mailbox.Waiting.{IsServed, acted, get-closes}

abbrev two_messages : Mailbox
two_messages = record {
  items = (1 ∷ []) ∷ (2 ∷ []) ∷ [];
  exc = some (closed_ok "peer closed");
  maxsize = some 3;
}

abbrev busy : List Action
busy = puts (3 ∷ []) ∷ puts (4 ∷ []) ∷ takes ∷ closes (closed_error "connection lost") ∷ []

get_times_drains_example :
    (get_times 4 none two_messages).0
    ≡ received (1 ∷ [])
      ∷ received (2 ∷ [])
      ∷ raised (closed_ok "peer closed")
      ∷ raised (closed_ok "peer closed")
      ∷ []
get_times_drains_example = get_times_drains two_messages 2 none (closed_ok "peer closed") refl

iterate_drains_example : iterate 4 two_messages ≡ ((1 ∷ []) ∷ (2 ∷ []) ∷ [], stops)
unfolding is_closed_ok
iterate_drains_example = iterate_drains two_messages 1 (closed_ok "peer closed") refl

put_all-admitted_example :
    let outcome = put_all two_messages ((3 ∷ []) ∷ (4 ∷ []) ∷ []) in
    (outcome.1.items ≡ (1 ∷ []) ∷ (2 ∷ []) ∷ (3 ∷ []) ∷ []) × (accepted outcome.0 ≡ 1)
put_all-admitted_example = put_all-admitted two_messages ((3 ∷ []) ∷ (4 ∷ []) ∷ [])

get-closes_example :
    let self = Mailbox.empty none in
    (done : List Action) × (rest : List Action) × (done ++ rest ≡ busy)
    × IsServed (acted done self) (get none busy self).0 (get none busy self).1
    × (poll busy self ≡ (true, acted done self))
get-closes_example = get-closes none busy (Mailbox.empty none) refl
