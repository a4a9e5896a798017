-- ===== src/AsyncMailbox/Phases.antt =====
-- What state a mailbox of the event loop and the synchronous mailbox that it stands for are in,
-- while nothing is put after the first close.
use raknet_python.Prelude.{
  ℕ, Bool, true, false, Option, none, some, List, [], ◌∷◌, ◌++◌, map, length,
}
use raknet_python.Raw.Interface.{Bytes}
use raknet_python.Exceptions.{ConnectionClosed}
use raknet_python.Mailbox.{Mailbox}
use raknet_python.AsyncMailbox.{AsyncMailbox, puts, closes}

-- The messages in the queue and those on the way to it, with the exception of the first close and
-- those of the later ones whose callbacks have not run: an open mailbox; one whose closing is on
-- the way; one with the mark in its queue; and one whose mark has been read.
pub data Phase : Type 0 where
  opened : (xs ys : List Bytes) → Phase
  ending : (xs ys : List Bytes) (e : ConnectionClosed) (es : List ConnectionClosed) → Phase
  marked : (xs : List Bytes) (e : ConnectionClosed) (es : List ConnectionClosed) → Phase
  spent : (e : ConnectionClosed) (es : List ConnectionClosed) → Phase

module _ (cap : Option ℕ) where
  abbrev pub async : Phase → AsyncMailbox
  async (opened xs ys) = record {
    queue = map some xs;
    exc = none;
    drained = false;
    maxsize = cap;
    size = length (xs ++ ys);
    scheduled = map puts ys;
    loop_closed = false;
  }
  async (ending xs ys e es) = record {
    queue = map some xs;
    exc = none;
    drained = false;
    maxsize = cap;
    size = length (xs ++ ys);
    scheduled = map puts ys ++ closes e ∷ map closes es;
    loop_closed = false;
  }
  async (marked xs e es) = record {
    queue = map some xs ++ none ∷ [];
    exc = some e;
    drained = false;
    maxsize = cap;
    size = length xs;
    scheduled = map closes es;
    loop_closed = false;
  }
  async (spent e es) = record {
    queue = none ∷ [];
    exc = some e;
    drained = true;
    maxsize = cap;
    size = 0;
    scheduled = map closes es;
    loop_closed = false;
  }

  abbrev pub sync : Phase → Mailbox
  sync (opened xs ys) = record { items = xs ++ ys; exc = none; maxsize = cap }
  sync (ending xs ys e es) = record { items = xs ++ ys; exc = some e; maxsize = cap }
  sync (marked xs e es) = record { items = xs; exc = some e; maxsize = cap }
  sync (spent e es) = record { items = []; exc = some e; maxsize = cap }

abbrev pub is_opened : Phase → Bool
is_opened (opened xs ys) = true
is_opened (ending xs ys e es) = false
is_opened (marked xs e es) = false
is_opened (spent e es) = false

-- The phase after a message is accepted, which happens in an open one; after a close; after the
-- loop has run a callback; and after a message or the mark is taken.
abbrev pub after_put : Bytes → Phase → Phase
after_put item (opened xs ys) = opened xs (ys ++ item ∷ [])
after_put item (ending xs ys e es) = ending xs ys e es
after_put item (marked xs e es) = marked xs e es
after_put item (spent e es) = spent e es

abbrev pub after_close : ConnectionClosed → Phase → Phase
after_close exc (opened xs ys) = ending xs ys exc []
after_close exc (ending xs ys e es) = ending xs ys e (es ++ exc ∷ [])
after_close exc (marked xs e es) = marked xs e (es ++ exc ∷ [])
after_close exc (spent e es) = spent e (es ++ exc ∷ [])

abbrev pub after_run : Phase → Phase
after_run (opened xs []) = opened xs []
after_run (opened xs (y ∷ ys)) = opened (xs ++ y ∷ []) ys
after_run (ending xs [] e es) = marked xs e es
after_run (ending xs (y ∷ ys) e es) = ending (xs ++ y ∷ []) ys e es
after_run (marked xs e []) = marked xs e []
after_run (marked xs e (f ∷ es)) = marked xs e es
after_run (spent e []) = spent e []
after_run (spent e (f ∷ es)) = spent e es

abbrev pub after_get : Phase → Phase
after_get (opened [] ys) = opened [] ys
after_get (opened (x ∷ xs) ys) = opened xs ys
after_get (ending [] ys e es) = ending [] ys e es
after_get (ending (x ∷ xs) ys e es) = ending xs ys e es
after_get (marked [] e es) = spent e es
after_get (marked (x ∷ xs) e es) = marked xs e es
after_get (spent e es) = spent e es
