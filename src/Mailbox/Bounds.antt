-- ===== src/Mailbox/Bounds.antt =====
-- A mailbox with a limit never holds more, refuses only what does not fit, and keeps the exception
-- that it was closed with first.
use mathlib.Core.List.{append_assoc, append-nil}
use raknet_python.Prelude.{
  ℕ, suc, ◌-◌, ◌≤◌, ◌≡◌, ◌∙◌, refl, ap, Bool, true, false, Option, none, some, List, [], ◌∷◌, ◌++◌,
  length, take, arith, take-nil, length-append, Bool-cases, inl, inr, leb,
}
use raknet_python.Raw.Interface.{Bytes}
use raknet_python.Exceptions.{ConnectionClosed}
use raknet_python.Mailbox.{Mailbox, put, Action, puts, closes, takes, act, take_first}

abbrev pub Fits : Option ℕ → List Bytes → Type 0
Fits none items = Unit {0}
Fits (some n) items = length items ≤ n

abbrev pub IsBounded : Mailbox → Type 0
IsBounded self = Fits self.maxsize self.items

-- What the threads do, one after the other.
run : Mailbox → List Action → Mailbox
run self [] = self
run self (a ∷ actions) = run (act self a) actions

put-Fits :
    (items : List Bytes) (exc : Option ConnectionClosed) (maxsize : Option ℕ) (item : Bytes)
    → Fits maxsize items
    → IsBounded (put (record { items = items; exc = exc; maxsize = maxsize }) item).1
unfolding put
put-Fits items exc none item h = tt
put-Fits items exc (some n) item h = ground (arith, length-append items (item ∷ []))

-- A mailbox within its limit stays within it.
pub put-IsBounded : (self : Mailbox) (item : Bytes) → IsBounded self → IsBounded (put self item).1
put-IsBounded self item = put-Fits self.items self.exc self.maxsize item

take_first-Fits :
    (items : List Bytes) (exc : Option ConnectionClosed) (maxsize : Option ℕ)
    → Fits maxsize items
    → IsBounded (take_first (record { items = items; exc = exc; maxsize = maxsize })).1
unfolding take_first
take_first-Fits [] none maxsize h = h
take_first-Fits [] (some e) maxsize h = h
take_first-Fits (item ∷ items) exc none h = tt
take_first-Fits (item ∷ items) exc (some n) h = omega arith

act-IsBounded : (self : Mailbox) (a : Action) → IsBounded self → IsBounded (act self a)
unfolding act
act-IsBounded self (puts item) h = put-Fits self.items self.exc self.maxsize item h
act-IsBounded self (closes exc) h = h
act-IsBounded self takes h = take_first-Fits self.items self.exc self.maxsize h

-- So does a mailbox that a message is taken from.
pub take_first-IsBounded : (self : Mailbox) → IsBounded self → IsBounded (take_first self).1
take_first-IsBounded self = take_first-Fits self.items self.exc self.maxsize

-- Whatever the threads do with a mailbox, it never holds more messages than its limit allows.
run-IsBounded :
    (self : Mailbox) (actions : List Action) → IsBounded self → IsBounded (run self actions)
unfolding run
run-IsBounded self [] h = h
run-IsBounded self (a ∷ actions) h = run-IsBounded (act self a) actions (act-IsBounded self a h)

act_exc :
    (self : Mailbox) (a : Action) (e : ConnectionClosed)
    → self.exc ≡ some e
    → (act self a).exc ≡ some e
unfolding act
act_exc self (puts item) e h = ground arith
act_exc self (closes exc) e h = ground arith
act_exc self takes e h = ground arith

-- A closed mailbox keeps its exception, whatever the threads do and however they close it again.
run_exc :
    (self : Mailbox) (actions : List Action) (e : ConnectionClosed)
    → self.exc ≡ some e
    → (run self actions).exc ≡ some e
unfolding run
run_exc self [] e h = h
run_exc self (a ∷ actions) e h = run_exc (act self a) actions e (act_exc self a e h)

-- The messages that are put in one after the other, with the answers of `put`.
pub put_all : Mailbox → List Bytes → List Bool × Mailbox
put_all self [] = ([], self)
put_all self (item ∷ items) =
    let (done, self') = put self item in
    let (others, self'') = put_all self' items in (done ∷ others, self'')

-- The first messages, as many as there is room for.
abbrev pub admitted : Option ℕ → ℕ → List Bytes → List Bytes
admitted none held items = items
admitted (some n) held items = take (n - held) items

-- How often `put` accepted.
abbrev pub accepted : List Bool → ℕ
accepted [] = 0
accepted (true ∷ answers) = suc (accepted answers)
accepted (false ∷ answers) = accepted answers

put_all_full :
    (n : ℕ) (self : Mailbox) (xs : List Bytes)
    → self.maxsize ≡ some n
    → n ≤ length self.items
    → (accepted (put_all self xs).0 ≡ 0) × ((put_all self xs).1.items ≡ self.items)
unfolding put_all put
put_all_full n self [] e h = (refl, refl)
put_all_full n self (x ∷ xs) e h = ground (arith, put_all_full n self xs)

abbrev Admits : Mailbox → List Bytes → List Bytes → Type 0
Admits self xs kept =
    ((put_all self xs).1.items ≡ self.items ++ kept) × (accepted (put_all self xs).0 ≡ length kept)

put_all_unbounded :
    (items : List Bytes) (exc : Option ConnectionClosed) (xs : List Bytes)
    → Admits (record { items = items; exc = exc; maxsize = none }) xs xs
unfolding put_all put
put_all_unbounded items exc [] = (rw append-nil, refl)
put_all_unbounded items exc (x ∷ xs) =
    let (kept, count) = put_all_unbounded (items ++ x ∷ []) exc xs in
    (kept ∙ append_assoc items (x ∷ []) xs, ap suc count)

put_all_bounded :
    (n : ℕ) (items : List Bytes) (exc : Option ConnectionClosed) (xs : List Bytes)
    → Admits (record { items = items; exc = exc; maxsize = some n }) xs (take (n - length items) xs)
unfolding put_all put
put_all_bounded n items exc [] = rw (take-nil, append-nil) (refl, refl)
put_all_bounded n items exc (x ∷ xs) = elim (Bool-cases (leb n (length items))) [
  | inl full ↦
      let e : n - length items ≡ 0 = ground arith in
      let (kept, count) =
        put_all_full n (record { items = items; exc = exc; maxsize = some n }) xs refl
          (ground arith) in
      rw (full, e) (rw append-nil count, kept)
  | inr room ↦
      let e : n - length items ≡ suc (n - (length (items ++ x ∷ []))) =
        ground (arith, length-append items (x ∷ [])) in
      let (kept, count) = put_all_bounded n (items ++ x ∷ []) exc xs in
      rw (room, e) (kept ∙ append_assoc items (x ∷ []) _, ap suc count)
]

-- Messages that arrive with no receiver at work are kept in order behind those that are there, as
-- many as the limit leaves room for; `put` answers true exactly that often, and the rest is lost.
pub put_all-admitted :
    (self : Mailbox) (xs : List Bytes)
    → let kept = admitted self.maxsize (length self.items) xs in
      ((put_all self xs).1.items ≡ self.items ++ kept)
      × (accepted (put_all self xs).0 ≡ length kept)
put_all-admitted self xs = admitted_lem self.maxsize
  where
    admitted_lem :
        (maxsize : Option ℕ)
        → Admits (record self { maxsize = maxsize }) xs (admitted maxsize (length self.items) xs)
    admitted_lem none = put_all_unbounded self.items self.exc xs
    admitted_lem (some n) = put_all_bounded n self.items self.exc xs
