-- ===== src/AsyncPeer/AcceptQueue/Order.antt =====
-- No entry of the accept queue is lost, doubled or overtaken.
use mathlib.Core.List.{append_assoc, append-nil}
use raknet_python.Prelude.{
  ◌≡◌, ◌∙◌, sym, ap, subst, Bool, false, Option, none, some, List, [], ◌∷◌, ◌++◌,
}
use raknet_python.AsyncPeer.AcceptQueue.{AcceptQueue, put, run_next, get}

-- What the pump thread, the loop and the tasks do with the queue.
pub data Move (A : Type 0) : Type 0 where
  putting : A → Move A
  running getting : Move A

module _ {A : Type 0} where
  -- One move: what it takes out, if anything, and the queue afterwards.
  abbrev pub move : AcceptQueue A → Move A → Option A × AcceptQueue A
  move self (putting item) = (none, put self item)
  move self running = (none, run_next self)
  move self getting = get self

  abbrev pub prepend : Option A → List A → List A
  prepend none items = items
  prepend (some item) items = item ∷ items

  -- The entries that the tasks get, and the queue at the end.
  abbrev pub moves : AcceptQueue A → List (Move A) → List A × AcceptQueue A
  moves self [] = ([], self)
  moves self (m ∷ ms) =
      let (out, self') = move self m in let (rest, end) = moves self' ms in (prepend out rest, end)

  -- The entries that are put.
  abbrev pub entries : List (Move A) → List A
  entries [] = []
  entries (putting item ∷ ms) = item ∷ entries ms
  entries (running ∷ ms) = entries ms
  entries (getting ∷ ms) = entries ms

  -- All entries on their way, the first to come out first.
  abbrev pub waiting : AcceptQueue A → List A
  waiting self = self.queue ++ self.scheduled

  abbrev opened : List A → List A → AcceptQueue A
  opened queue scheduled = record { queue = queue; scheduled = scheduled; loop_closed = false }

  fifo :
      (ms : List (Move A)) (queue scheduled : List A)
      → let (out, end) = moves (opened queue scheduled) ms in
        out ++ waiting end ≡ (queue ++ scheduled) ++ entries ms
  unfolding put run_next get
  fifo [] queue scheduled = sym (append-nil (queue ++ scheduled))
  fifo (putting item ∷ ms) queue scheduled =
      fifo ms queue (scheduled ++ item ∷ []) ∙ simp (append_assoc)
  fifo (running ∷ ms) queue [] = fifo ms queue []
  fifo (running ∷ ms) queue (item ∷ scheduled) =
      fifo ms (queue ++ item ∷ []) scheduled ∙ simp (append_assoc)
  fifo (getting ∷ ms) [] scheduled = fifo ms [] scheduled
  fifo (getting ∷ ms) (item ∷ queue) scheduled = ap (λ l. item ∷ l) (fifo ms queue scheduled)

  -- Whatever is done with the accept queue of an open event loop, in any order: the entries that the
  -- tasks got, then those in the queue, then those that callbacks have still to put, are the entries
  -- that were on their way at first and then those that were put, all of them once and in order.
  pub moves-waiting :
      (self : AcceptQueue A) (ms : List (Move A))
      → self.loop_closed ≡ false
      → let (out, end) = moves self ms in out ++ waiting end ≡ waiting self ++ entries ms
  moves-waiting self ms open_loop =
      subst
        (λ (b : Bool).
          let end = moves (record self { loop_closed = b }) ms in
          end.0 ++ waiting end.1 ≡ waiting self ++ entries ms)
        (sym open_loop) (fifo ms self.queue self.scheduled)
