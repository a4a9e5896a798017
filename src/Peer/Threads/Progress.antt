-- ===== src/Peer/Threads/Progress.antt =====
-- What assignments to one connection make of it.
use mathlib.Core.List.{append_assoc, append-nil}
use raknet_python.Prelude.{
  ℕ, ◌<◌, ◌≡◌, inl, inr, refl, sym, ◌∙◌, ap, subst, Bool, true, false, Option, none, some, List, [],
  ◌∷◌, ◌++◌, arith, nat_eq, Bool-cases, nat_beq_iff, ◌==◌, if◌then◌else◌,
}
use raknet_python.Prelude.Objects.{Ref, Objects, put_at, alloc}
use raknet_python.Raw.Interface.{Bytes}
use raknet_python.Exceptions.{ConnectionClosed}
use raknet_python.Mailbox
use raknet_python.Mailbox.{Mailbox}
use raknet_python.Peer.{Connection}

-- The connection has come from the other one, while messages were taken from its mailbox and others
-- were put into it: it is the same one, a closed one stays closed and keeps its exception, and the
-- mailbox is a queue.
pub record Progress {A : Type 0} (taken arrived : List Bytes) (c c' : Connection A) : Type 0 where
  pub address : c'.raw_address ≡ c.raw_address
  pub guid : c'.raw_guid ≡ c.raw_guid
  pub shut : c.closed ≡ true → c'.closed ≡ true
  pub ended : (e : ConnectionClosed) → c.mailbox.exc ≡ some e → c'.mailbox.exc ≡ some e
  pub queued : taken ++ c'.mailbox.items ≡ c.mailbox.items ++ arrived

-- The message at the front, as a list.
abbrev pub front : List Bytes → List Bytes
front [] = []
front (item ∷ items) = item ∷ []

take_first-front :
    (items : List Bytes) (exc : Option ConnectionClosed) (maxsize : Option ℕ)
    → let m : Mailbox = record { items = items; exc = exc; maxsize = maxsize } in
      ((Mailbox.take_first m).1.exc ≡ exc)
      × (front items ++ (Mailbox.take_first m).1.items ≡ items ++ [])
unfolding Mailbox.take_first
take_first-front [] none maxsize = (refl, refl)
take_first-front [] (some e) maxsize = (refl, refl)
take_first-front (item ∷ items) exc maxsize = (refl, sym (append-nil (item ∷ items)))

-- The connection is still there, and has come from what it was.
abbrev pub HasProgress :
    {A : Type 0}
    → List Bytes
    → List Bytes
    → Objects (Connection A)
    → Objects (Connection A)
    → Ref
    → Type 0
HasProgress taken arrived s s' r = (r < s'.next) × Progress taken arrived (s.at r) (s'.at r)

module _ {A : Type 0} where
  pub Progress-refl : (c : Connection A) → Progress [] [] c c
  Progress-refl c = record {
    address = refl;
    guid = refl;
    shut = λ h. h;
    ended = λ e h. h;
    queued = sym (append-nil c.mailbox.items);
  }

  pub Progress-trans :
      (c c' c'' : Connection A) (taken taken' arrived arrived' : List Bytes)
      → Progress taken arrived c c'
      → Progress taken' arrived' c' c''
      → Progress (taken ++ taken') (arrived ++ arrived') c c''
  Progress-trans c c' c'' taken taken' arrived arrived' f g = record {
    address = g.address ∙ f.address;
    guid = g.guid ∙ f.guid;
    shut = λ h. g.shut (f.shut h);
    ended = λ e h. g.ended e (f.ended e h);
    queued =
        append_assoc taken taken' c''.mailbox.items
        ∙ ap (λ items. taken ++ items) g.queued
        ∙ sym (append_assoc taken c'.mailbox.items arrived')
        ∙ ap (λ items. items ++ arrived') f.queued
        ∙ append_assoc c.mailbox.items arrived arrived';
  }

  pub alloc-Progress :
      (c : Connection A) (s : Objects (Connection A)) (r : Ref)
      → r < s.next
      → Progress [] [] (s.at r) ((alloc c s).at r)
  alloc-Progress c s r made =
      let other : (s.next == r) ≡ false = ground arith in rw other (Progress-refl (s.at r))

  pub same-HasProgress :
      (s' s : Objects (Connection A)) → s' ≡ s → (r : Ref) → r < s.next → HasProgress [] [] s s' r
  same-HasProgress s' s e r made = rw e (made, Progress-refl (s.at r))

  moved-Progress :
      (q r : Ref) (c : Connection A) (s : Objects (Connection A)) (taken arrived : List Bytes)
      → (q == r) ≡ true
      → Progress taken arrived (s.at q) c
      → Progress taken arrived (s.at r) c
  moved-Progress q r c s taken arrived same h =
      subst (λ r. Progress taken arrived (s.at r) c) ((nat_beq_iff q r).0 same) h

  -- An assignment to one connection.
  pub write-Progress :
      (q : Ref) (c : Connection A) (s : Objects (Connection A)) (r : Ref)
      → Progress [] [] (s.at q) c
      → Progress [] [] (s.at r) ((put_at q c s).at r)
  write-Progress q c s r h = elim (Bool-cases (q == r)) [
    | inl same ↦ rw same (moved-Progress q r c s [] [] same h)
    | inr other ↦ rw other (Progress-refl (s.at r))
  ]

  pub flag-Progress : (c : Connection A) → Progress [] [] c (record c { closed = true })
  flag-Progress c = record {
    address = refl;
    guid = refl;
    shut = λ h. refl;
    ended = λ e h. h;
    queued = sym (append-nil c.mailbox.items);
  }

  pub own-Progress : (c : Connection A) → Progress [] [] c (record c { owns_peer = true })
  own-Progress c = record {
    address = refl;
    guid = refl;
    shut = λ h. h;
    ended = λ e h. h;
    queued = sym (append-nil c.mailbox.items);
  }

  pub seal-Progress :
      (c : Connection A) (exc : ConnectionClosed)
      → Progress [] [] c (record c { mailbox = Mailbox.close c.mailbox exc })
  unfolding Mailbox.close
  seal-Progress c exc = record {
    address = refl;
    guid = refl;
    shut = λ h. h;
    ended = λ e h. ground (arith, h);
    queued = sym (append-nil c.mailbox.items);
  }

  take-Progress :
      (c : Connection A)
      → Progress
          (front c.mailbox.items)
          []
          c
          (record c { mailbox = (Mailbox.take_first c.mailbox).1 })
  take-Progress c =
      let m = c.mailbox in
      let (same, queued) = take_first-front m.items m.exc m.maxsize in
      record {
        address = refl;
        guid = refl;
        shut = λ h. h;
        ended = λ e h. same ∙ h;
        queued = queued;
      }

  -- `full` is what `put` finds.
  put_if-Progress :
      (full : Bool) (bytes : Bytes) (c : Connection A)
      → let m = c.mailbox in
        let o : Bool × Mailbox =
          if full then (false, m) else (true, record m { items = m.items ++ bytes ∷ [] }) in
        Progress [] (if o.0 then bytes ∷ [] else []) c (record c { mailbox = o.1 })
  put_if-Progress true bytes c = Progress-refl c
  put_if-Progress false bytes c = record {
    address = refl;
    guid = refl;
    shut = λ h. h;
    ended = λ e h. h;
    queued = refl;
  }

  put-Progress :
      (bytes : Bytes) (c : Connection A)
      → Progress []
          (if (Mailbox.put c.mailbox bytes).0 then bytes ∷ [] else [])
          c
          (record c { mailbox = (Mailbox.put c.mailbox bytes).1 })
  unfolding Mailbox.put
  put-Progress bytes c = put_if-Progress (Mailbox.is_full c.mailbox) bytes c

  pub takes-Progress :
      (q : Ref) (s : Objects (Connection A)) (r : Ref)
      → let c = record (s.at q) { mailbox = (Mailbox.take_first (s.at q).mailbox).1 } in
        Progress
          (if q == r then front (s.at q).mailbox.items else [])
          []
          (s.at r)
          ((put_at q c s).at r)
  takes-Progress q s r = elim (Bool-cases (q == r)) [
    | inl same ↦ rw same (moved-Progress q r _ s _ [] same (take-Progress (s.at q)))
    | inr other ↦ rw other (Progress-refl (s.at r))
  ]

  pub puts-Progress :
      (q : Ref) (bytes : Bytes) (s : Objects (Connection A)) (r : Ref)
      → let (done, m) = Mailbox.put (s.at q).mailbox bytes in
        Progress []
          (if q == r then (if done then bytes ∷ [] else []) else [])
          (s.at r)
          ((put_at q (record (s.at q) { mailbox = m }) s).at r)
  puts-Progress q bytes s r = elim (Bool-cases (q == r)) [
    | inl same ↦ rw same (moved-Progress q r _ s [] _ same (put-Progress bytes (s.at q)))
    | inr other ↦ rw other (Progress-refl (s.at r))
  ]
