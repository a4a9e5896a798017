-- ===== src/Mailbox/Waiting.antt =====
-- Nobody waits for ever on a mailbox that is closed.
use raknet_python.Prelude.{
  ℕ, ◌≡◌, ◌∙◌, refl, sym, subst, ap, Bool, true, false, Option, none, some, List, [], ◌∷◌, ◌++◌,
  arith, Bool-cases, inl, inr,
}
use raknet_python.Raw.Interface.{Bytes}
use raknet_python.Exceptions.{ConnectionClosed}
use raknet_python.Mailbox.{
  take_first, Mailbox, Action, puts, closes, takes, Outcome, received, raised, timed_out, blocked,
  is_ready, act, wait_for, after_wait, get, poll,
}

abbrev pub is_answer : Outcome → Bool
is_answer (received item) = true
is_answer (raised e) = true
is_answer timed_out = false
is_answer blocked = false

-- Some thread closes the mailbox.
abbrev pub has_close : List Action → Bool
has_close [] = false
has_close (closes e ∷ actions) = true
has_close (puts item ∷ actions) = has_close actions
has_close (takes ∷ actions) = has_close actions

wait_for_of_is_ready :
    (actions : List Action) (self : Mailbox)
    → is_ready self ≡ true
    → (wait_for actions self).0 ≡ true
unfolding wait_for
wait_for_of_is_ready [] self h = h
wait_for_of_is_ready (a ∷ actions) self h = ground arith

wait_for_result :
    (actions : List Action) (self : Mailbox)
    → (wait_for actions self).0 ≡ is_ready (wait_for actions self).1
unfolding wait_for
wait_for_result [] self = refl
wait_for_result (a ∷ actions) self = elim (Bool-cases (is_ready self)) [
  | inl now ↦ rw (now, now)
  | inr later ↦ rw later (wait_for_result actions (act self a))
]

is_ready-closes :
    (self : Mailbox) (a : Action) → has_close (a ∷ []) ≡ true → is_ready (act self a) ≡ true
unfolding is_ready act
is_ready-closes self (closes e) h = ground arith
is_ready-closes self (puts item) h = cc
is_ready-closes self takes h = cc

wait_for-closes :
    (actions : List Action) (self : Mailbox)
    → has_close actions ≡ true
    → (wait_for actions self).0 ≡ true
unfolding wait_for
wait_for-closes [] self h = cc
wait_for-closes (closes e ∷ actions) self h =
    ground
      (arith, wait_for_of_is_ready actions (act self (closes e)), is_ready-closes self (closes e))
wait_for-closes (puts item ∷ actions) self h =
    ground (arith, wait_for-closes actions (act self (puts item)))
wait_for-closes (takes ∷ actions) self h = ground (arith, wait_for-closes actions (act self takes))

after_wait_answer :
    (timeout : Option ℕ) (self : Mailbox)
    → is_ready self ≡ true
    → is_answer (after_wait timeout (true, self)).0 ≡ true
unfolding after_wait is_ready
after_wait_answer timeout self h = ground arith

after_wait-true :
    (timeout : Option ℕ) (w : Bool × Mailbox)
    → w.0 ≡ true
    → w.0 ≡ is_ready w.1
    → is_answer (after_wait timeout w).0 ≡ true
after_wait-true timeout (true, self) h e = after_wait_answer timeout self (cc)
after_wait-true timeout (false, self) h e = cc

-- A mailbox that is ready answers at once.
pub get-ready :
    (timeout : Option ℕ) (self : Mailbox)
    → is_ready self ≡ true
    → is_answer (get timeout [] self).0 ≡ true
unfolding get wait_for
get-ready timeout self h = after_wait-true timeout (is_ready self, self) h refl

-- What `get` is to do with a mailbox, and leave of it: the first message is returned and taken out,
-- and where there is none the exception is raised and stays.
abbrev pub IsServed : Mailbox → Outcome → Mailbox → Type 0
IsServed m (received item) m' =
    (m.items ≡ item ∷ m'.items) × (m'.exc ≡ m.exc) × (m'.maxsize ≡ m.maxsize)
IsServed m (raised e) m' = (m.items ≡ []) × (m.exc ≡ some e) × (m' ≡ m)
IsServed m timed_out m' = ⊥
IsServed m blocked m' = ⊥

-- The mailbox after these actions of other threads.
abbrev pub acted : List Action → Mailbox → Mailbox
acted [] self = self
acted (a ∷ actions) self = acted actions (act self a)

after_wait-IsServed :
    (timeout : Option ℕ) (items : List Bytes) (exc : Option ConnectionClosed) (maxsize : Option ℕ)
    → let m : Mailbox = record { items = items; exc = exc; maxsize = maxsize } in
      is_ready m ≡ true
      → IsServed m (after_wait timeout (true, m)).0 (after_wait timeout (true, m)).1
unfolding after_wait is_ready take_first
after_wait-IsServed timeout (item ∷ items) exc maxsize h = (refl, refl, refl)
after_wait-IsServed timeout [] (some e) maxsize h = (refl, refl, refl)
after_wait-IsServed timeout [] none maxsize h = cc

-- A mailbox that is ready answers at once.
pub get-IsServed :
    (timeout : Option ℕ) (self : Mailbox)
    → is_ready self ≡ true
    → IsServed self (get timeout [] self).0 (get timeout [] self).1
unfolding get wait_for
get-IsServed timeout self h =
    subst (λ b. IsServed self (after_wait timeout (b, self)).0 (after_wait timeout (b, self)).1)
      (sym h) (after_wait-IsServed timeout self.items self.exc self.maxsize h)

-- The wait ends after some of the actions.
wait_for-acted :
    (actions : List Action) (self : Mailbox)
    → (done : List Action) × (rest : List Action) × (done ++ rest ≡ actions)
      × ((wait_for actions self).1 ≡ acted done self)
unfolding wait_for
wait_for-acted [] self = ([], [], refl, refl)
wait_for-acted (a ∷ actions) self = elim (Bool-cases (is_ready self)) [
  | inl now ↦ ([], a ∷ actions, refl, rw now refl)
  | inr later ↦
      let (done, rest, e, same) = wait_for-acted actions (act self a) in
      (a ∷ done, rest, ap (◌∷◌ a) e, rw later same)
]

-- If some thread closes the mailbox while `get` waits, then after some of what the other threads
-- do, `get` returns the first message that is in the mailbox, and takes it out, or, where there is
-- none, raises the exception of the mailbox, and leaves it; so it does with any timeout and also
-- with none. There `poll` answers true and changes nothing.
pub get-closes :
    (timeout : Option ℕ) (actions : List Action) (self : Mailbox)
    → has_close actions ≡ true
    → (done : List Action) × (rest : List Action) × (done ++ rest ≡ actions)
      × IsServed (acted done self) (get timeout actions self).0 (get timeout actions self).1
      × (poll actions self ≡ (true, acted done self))
unfolding get poll
get-closes timeout actions self h =
    let (done, rest, e, same) = wait_for-acted actions self in
    let closed = wait_for-closes actions self h in
    let out : wait_for actions self ≡ (true, acted done self) =
      ap (λ b. (b, (wait_for actions self).1)) closed ∙ ap (λ m. (true, m)) same in
    let m = acted done self in
    (
      done,
      rest,
      e,
      subst (λ w. IsServed m (after_wait timeout w).0 (after_wait timeout w).1) (sym out)
          (after_wait-IsServed timeout m.items m.exc m.maxsize
            (ap is_ready (sym same) ∙ sym (wait_for_result actions self) ∙ closed)),
      out,
    )
