-- ===== src/Examples/Loops.antt =====
-- Runs of the mailbox of the event loop.
use raknet_python.Prelude.{refl, some, List, [], ◌∷◌}
use raknet_python.Exceptions.{closed_ok}
use raknet_python.AsyncMailbox.{empty}
use raknet_python.Mailbox
use raknet_python.AsyncMailbox.Refines.{Explains, trace, trace_refines}
use raknet_python.AsyncMailbox.Counts.{Move, putting, closing, running, getting}

abbrev plan : List Move
plan =
    putting (1 ∷ [])
    ∷ putting (2 ∷ [])
    ∷ running
    ∷ getting
    ∷ closing (closed_ok "peer closed")
    ∷ running
    ∷ []

trace_refines_example : Explains (Mailbox.empty (some 1)) (trace (empty (some 1)) plan)
trace_refines_example = trace_refines (some 1) plan (refl, (refl, tt))
