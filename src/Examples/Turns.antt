-- ===== src/Examples/Turns.antt =====
-- Threads that take turns: one runs `incoming_connection`, another one `close`.
use raknet_python.Prelude.{ℕ, ◌<◌, nat_eq, ◌++◌, ◌≡◌, refl, true, none, some, List, [], ◌∷◌, arith}
use raknet_python.Exceptions.{ConnectionClosed, closed_ok}
use raknet_python.Mailbox
use raknet_python.Mailbox.Waiting.{is_answer}
use raknet_python.Peer.Sink.{track}
use raknet_python.Peer.Closing.{begin_close, raw_shutdown}
use raknet_python.Peer.Starting.{new_peer}
use raknet_python.Peer.Threads.{
  Block, comes, queues, closes, shuts_down, flags, seals, finish_blocks, close_blocks, fail_blocks,
  end_blocks, after_begin, after_flag,
}
use raknet_python.Peer.Threads.Exec.{exec}
use raknet_python.Peer.Threads.Turns.{Threads, reprogram, begins, runs, Interleaved, start, later}
use raknet_python.Peer.Threads.Invariant.{
  IsInOrder, new_threads, Interleaved-IsInOrder, Interleaved-answers,
}
use raknet_python.Prelude.Dict.{insert, values}
use raknet_python.Examples.World.{guid_of, small}
use raknet_python.Examples.Setup.{raw, remote}

abbrev ends_well : ConnectionClosed
ends_well = closed_ok "peer closed"

abbrev pub begun : ℕ → Block small → Threads small → Threads small
begun i b s = record s { program = reprogram i (b ∷ []) s.program }

abbrev pub ran : ℕ → Block small → List (Block small) → Threads small → Threads small
ran i b rest s = record {
  peer = (exec small 0 b s.peer).1;
  program = reprogram i ((exec small 0 b s.peer).0 ++ rest) s.program;
}

abbrev pub first : Threads small
first = new_threads small (some 1) raw

-- The connection is in the table, but not in the accept queue yet, when the peer is closed.
abbrev arriving : Threads small
arriving = ran 0 (comes remote (guid_of 7)) [] (begun 0 (comes remote (guid_of 7)) first)

abbrev closing : Threads small
closing = ran 1 (closes 500 ends_well) [] (begun 1 (closes 500 ends_well) arriving)

abbrev flagging : Threads small
flagging =
    ran 1 (flags 0 none ends_well) (queues none ∷ [])
      (ran 1 (shuts_down 500) (flags 0 none ends_well ∷ queues none ∷ []) closing)

arriving_path : Interleaved first arriving
unfolding exec track new_peer insert values begin_close after_begin finish_blocks close_blocks
    fail_blocks end_blocks after_flag raw_shutdown
arriving_path =
    later (later start (begins 0 (comes remote (guid_of 7)) refl tt))
      (runs 0 0 (comes remote (guid_of 7)) [] refl)

closing_path : Interleaved first closing
unfolding exec track new_peer insert values begin_close after_begin finish_blocks close_blocks
    fail_blocks end_blocks after_flag raw_shutdown
closing_path =
    later (later arriving_path (begins 1 (closes 500 ends_well) refl tt))
      (runs 1 0 (closes 500 ends_well) [] refl)

flagging_path : Interleaved first flagging
unfolding exec track new_peer insert values begin_close after_begin finish_blocks close_blocks
    fail_blocks end_blocks after_flag raw_shutdown
flagging_path =
    later
      (later closing_path
        (runs 1 0 (shuts_down 500) (flags 0 none ends_well ∷ queues none ∷ []) refl))
      (runs 1 0 (flags 0 none ends_well) (queues none ∷ []) refl)

Interleaved-IsInOrder_example : IsInOrder flagging
Interleaved-IsInOrder_example = Interleaved-IsInOrder small (some 1) raw flagging flagging_path

abbrev done : Threads small
done =
    ran 0 (queues (some 0)) []
      (ran 1 (queues none) [] (ran 1 (seals 0 ends_well) (queues none ∷ []) flagging))

done_path : Interleaved first done
unfolding exec track new_peer insert values begin_close after_begin finish_blocks close_blocks
    fail_blocks end_blocks after_flag raw_shutdown
done_path =
    later
      (later (later flagging_path (runs 1 0 (seals 0 ends_well) (queues none ∷ []) refl))
        (runs 1 0 (queues none) [] refl))
      (runs 0 0 (queues (some 0)) [] refl)

done_idle : (i : ℕ) → done.program i ≡ []
unfolding exec track new_peer insert values begin_close after_begin finish_blocks close_blocks
    fail_blocks end_blocks after_flag raw_shutdown
done_idle i = ground arith

done_shut : (done.peer.connection_at.at 0).closed ≡ true
unfolding exec track new_peer insert values begin_close after_begin finish_blocks close_blocks
    fail_blocks end_blocks after_flag raw_shutdown
done_shut = refl

done_made : 0 < done.peer.connection_at.next
unfolding exec track new_peer insert values begin_close after_begin finish_blocks close_blocks
    fail_blocks end_blocks after_flag raw_shutdown
done_made = omega arith

Interleaved-answers_example :
    is_answer (Mailbox.get none [] (done.peer.connection_at.at 0).mailbox).0 ≡ true
Interleaved-answers_example =
    Interleaved-answers small (some 1) raw done 0 none done_path done_idle done_made done_shut
