-- ===== src/Peer/Threads/Moves.antt =====
-- What the blocks do to one table and to the objects that it refers to.
use raknet_python.Prelude.{
  ℕ, ◌+◌, ◌<◌, ◌≡◌, Bool, false, Option, List, [], ◌∷◌, arith, some, Eq, String, string_eq, nat_eq,
  Bool-cases, inl, inr,
}
use raknet_python.Prelude.Dict.{Dict, values, lookup, insert, erase, lookup-nil, lookup-erase}
use raknet_python.Prelude.Objects.{Ref, Objects, put_at, alloc}
use raknet_python.Mailbox.Bounds.{IsBounded}
use raknet_python.Peer.{Connection}
use raknet_python.Peer.Tables.{
  AllAt, put_at-AllAt, alloc-AllAt, Waits, erase-Waits, register-Waits, IsTracked, track-IsTracked,
  forget-IsTracked, write-IsTracked,
}
use raknet_python.Peer.Closing.Invariant.{nil-Waits, nil-IsTracked}
use raknet_python.Peer.Threads.Fitting.{Loose, insert-Loose, erase-Loose, nil-Loose, Keeps}

abbrev pub Below : ℕ → List Ref → Type 0
Below n [] = Unit {0}
Below n (r ∷ refs) = (r < n) × Below n refs

Below-suc : (n : ℕ) (refs : List Ref) → Below n refs → Below (n + 1) refs
Below-suc n [] h = tt
Below-suc n (r ∷ refs) (h, hs) = (omega arith, Below-suc n refs hs)

module _ {K : Type 0} ⦃e : Eq K⦄ where
  insert-Below :
      (k : K) (r n : ℕ) (d : Dict K Ref)
      → r < n
      → Below n (values d)
      → Below n (values (insert k r d))
  unfolding values insert
  insert-Below k r n [] h hs = (h, tt)
  insert-Below k r n ((j, q) ∷ d) h (g, hs) = elim (Bool-cases (e.same j k)) [
    | inl same ↦ rw same (h, hs)
    | inr other ↦ rw other (g, insert-Below k r n d h hs)
  ]

  erase-Below : (k : K) (n : ℕ) (d : Dict K Ref) → Below n (values d) → Below n (values (erase k d))
  unfolding values erase
  erase-Below k n [] hs = tt
  erase-Below k n ((j, q) ∷ d) (g, hs) = elim (Bool-cases (e.same j k)) [
    | inl same ↦ rw same (erase-Below k n d hs)
    | inr other ↦ rw other (g, erase-Below k n d hs)
  ]

  module _ {A : Type 0} (d : Dict K Ref) (s : Objects A) where
    pub stay-Keeps : Keeps d s d s
    stay-Keeps = record { grows = λ r h. h; loose = λ r h. h }

    pub write-Keeps : (q : Ref) (a : A) → Keeps d s d (put_at q a s)
    write-Keeps q a = record {
      grows = λ r h. h;
      loose = λ r h. record { made = h.made; absent = h.absent };
    }

    pub insert-Keeps : (k : K) (a : A) → Keeps d s (insert k s.next d) (alloc a s)
    insert-Keeps k a = record {
      grows = λ r h. omega arith;
      loose = λ r h. insert-Loose d s r h k a;
    }

    pub erase-Keeps : (k : K) → Keeps d s (erase k d) s
    erase-Keeps k = record { grows = λ r h. h; loose = λ r h. erase-Loose d s r h k }

    pub nil-Keeps : Keeps d s [] s
    nil-Keeps = record { grows = λ r h. h; loose = λ r h. nil-Loose d s r h }

-- A table of pending calls that is in order, and refers to calls that have been made.
pub record SafePending {A : Type 0} (event : A → Bool) (d : Dict String Ref) (s : Objects A)
    : Type 0 where
  pub waits : Waits event d s
  pub below : Below s.next (values d)

module _ {A : Type 0} {event : A → Bool} {d : Dict String Ref} {s : Objects A}
    (w : SafePending event d s) where
  pub register-SafePending :
      (k : String) (a : A) → event a ≡ false → SafePending event (insert k s.next d) (alloc a s)
  register-SafePending k a fresh = record {
    waits = register-Waits w.waits k a fresh;
    below = insert-Below k s.next (s.next + 1) d (omega arith) (Below-suc _ _ w.below);
  }

  pub erase-SafePending : (k : String) → SafePending event (erase k d) s
  erase-SafePending k = record {
    waits = erase-Waits w.waits k;
    below = erase-Below k s.next d w.below;
  }

  pub nil-SafePending : SafePending event [] s
  unfolding values
  nil-SafePending = record { waits = nil-Waits event s; below = tt }

  -- An assignment that leaves the event alone.
  pub write-SafePending :
      (q : Ref) (a : A) → event a ≡ event (s.at q) → SafePending event d (put_at q a s)
  write-SafePending q a same = record {
    waits = record {
      made = w.waits.made;
      unset = λ k r h. ground (arith, w.waits.unset k r);
      distinct = w.waits.distinct;
    };
    below = w.below;
  }

  -- `event.set()` for a call that is pending no longer.
  pub wake-SafePending : (q : Ref) (a : A) → Loose d s q → SafePending event d (put_at q a s)
  wake-SafePending q a h = record {
    waits = record {
      made = w.waits.made;
      unset = λ k r g. ground (arith, w.waits.unset k r, h.absent k);
      distinct = w.waits.distinct;
    };
    below = w.below;
  }

-- A connection has the peer's limit and holds no more than it.
pub record IsWithin {A : Type 0} (max_queue : Option ℕ) (c : Connection A) : Type 0 where
  pub limit : c.mailbox.maxsize ≡ max_queue
  pub bounded : IsBounded c.mailbox

pub record SafeConnections {A : Type 0} (max_queue : Option ℕ) (d : Dict ℕ Ref)
    (s : Objects (Connection A)) : Type 0 where
  pub tracked : IsTracked d s
  pub within : AllAt (IsWithin max_queue) s
  pub below : Below s.next (values d)

module _ {A : Type 0} {max_queue : Option ℕ} {d : Dict ℕ Ref} {s : Objects (Connection A)}
    (v : SafeConnections max_queue d s) where
  pub track-SafeConnections :
      (c : Connection A)
      → c.closed ≡ false
      → IsWithin max_queue c
      → SafeConnections max_queue (insert c.raw_guid.g s.next d) (alloc c s)
  track-SafeConnections c fresh h = record {
    tracked = track-IsTracked v.tracked c fresh;
    within = alloc-AllAt (IsWithin max_queue) c s h v.within;
    below = insert-Below _ s.next (s.next + 1) d (omega arith) (Below-suc _ _ v.below);
  }

  pub erase-SafeConnections : (g : ℕ) → SafeConnections max_queue (erase g d) s
  erase-SafeConnections g = record {
    tracked = forget-IsTracked v.tracked g;
    within = v.within;
    below = erase-Below g s.next d v.below;
  }

  pub nil-SafeConnections : SafeConnections max_queue [] s
  unfolding values
  nil-SafeConnections = record { tracked = nil-IsTracked s; within = v.within; below = tt }

  -- An assignment that leaves the guid and `_closed` alone.
  pub write-SafeConnections :
      (q : Ref) (c : Connection A)
      → c.raw_guid.g ≡ (s.at q).raw_guid.g
      → c.closed ≡ (s.at q).closed
      → (IsWithin max_queue (s.at q) → IsWithin max_queue c)
      → SafeConnections max_queue d (put_at q c s)
  write-SafeConnections q c same still h = record {
    tracked = write-IsTracked v.tracked q c same still;
    within = put_at-AllAt (IsWithin max_queue) q c s (λ made. h (v.within q made)) v.within;
    below = v.below;
  }

  -- `_closed = True` for a connection that has left the table.
  pub flag-SafeConnections :
      (q : Ref) (c : Connection A)
      → Loose d s q
      → (IsWithin max_queue (s.at q) → IsWithin max_queue c)
      → SafeConnections max_queue d (put_at q c s)
  flag-SafeConnections q c h same = record {
    tracked = record {
      made = v.tracked.made;
      guid = λ g r found. ground (arith, v.tracked.guid g r, h.absent g);
      opened = λ g r found. ground (arith, v.tracked.opened g r, h.absent g);
    };
    within = put_at-AllAt (IsWithin max_queue) q c s (λ made. same (v.within q made)) v.within;
    below = v.below;
  }

-- An empty table has nothing.
pub made-Loose :
    {K A : Type 0} ⦃e : Eq K⦄ (s : Objects A) (r : Ref) → r < s.next → Loose {K = K} [] s r
made-Loose s r h = record { made = h; absent = λ k found. ground (arith, lookup-nil {V = Ref} k) }

-- What has been taken out of a table stands in it under no other key.
pub popped-Loose :
    {A : Type 0} {event : A → Bool} {d : Dict String Ref} {s : Objects A} (w : Waits event d s)
    (k : String) (r : Ref)
    → lookup k d ≡ some r
    → Loose (erase k d) s r
popped-Loose {d = d} w k r e = record {
  made = w.made k r e;
  absent = λ j found. ground (arith, lookup-erase j k d, string_eq.same_iff k j, w.distinct j k r);
}

pub dropped-Loose :
    {A : Type 0} {d : Dict ℕ Ref} {s : Objects (Connection A)} (t : IsTracked d s) (g : ℕ) (r : Ref)
    → r < s.next
    → (s.at r).raw_guid.g ≡ g
    → Loose (erase g d) s r
dropped-Loose {d = d} t g r h e = record {
  made = h;
  absent = λ j found. ground (arith, lookup-erase j g d, t.guid j r);
}
