-- ===== src/AsyncMailbox/Simulation.antt =====
-- One move of a mailbox of the event loop beside the synchronous mailbox, phase by phase.
use mathlib.Core.List.{append_assoc, append-nil}
use raknet_python.Prelude.{
  ℕ, ◌+◌, ◌≡◌, refl, ap, true, Option, none, some, List, [], ◌∷◌, ◌++◌, map, length, arith, leb,
  Bool-cases, inl, inr, length-append,
}
use raknet_python.Raw.Interface.{Bytes}
use raknet_python.Exceptions.{ConnectionClosed}
use raknet_python.Mailbox
use raknet_python.Mailbox.{Mailbox}
use raknet_python.AsyncMailbox.{
  puts, put, close, call_soon, is_full, run_callback, run_next, take_next, get,
}
use raknet_python.AsyncMailbox.Phases.{
  Phase, opened, ending, marked, spent, async, sync, is_opened, after_close, after_run, after_get,
}

map-append {ℓ κ} :
    {A : Type ℓ} {B : Type κ} (f : A → B) (xs ys : List A) → map f (xs ++ ys) ≡ map f xs ++ map f ys
map-append f [] ys = refl
map-append f (x ∷ xs) ys = ap (◌∷◌ (f x)) (map-append f xs ys)

pub move-close :
    (cap : Option ℕ) (exc : ConnectionClosed) (p : Phase)
    → (close (async cap p) exc ≡ async cap (after_close exc p))
      × (Mailbox.close (sync cap p) exc ≡ sync cap (after_close exc p))
unfolding close call_soon Mailbox.close
move-close cap exc (opened xs ys) = (refl, refl)
move-close cap exc (ending xs ys e es) = (rw (map-append, append_assoc) refl, refl)
move-close cap exc (marked xs e es) = (rw map-append refl, refl)
move-close cap exc (spent e es) = (rw map-append refl, refl)

pub move-run :
    (cap : Option ℕ) (p : Phase)
    → (run_next (async cap p) ≡ async cap (after_run p)) × (sync cap p ≡ sync cap (after_run p))
unfolding run_next run_callback
move-run cap (opened xs []) = (refl, refl)
move-run cap (opened xs (y ∷ ys)) = (rw (map-append, append_assoc) refl, rw append_assoc refl)
move-run cap (ending xs [] e es) = (rw append-nil refl, rw append-nil refl)
move-run cap (ending xs (y ∷ ys) e es) = (rw (map-append, append_assoc) refl, rw append_assoc refl)
move-run cap (marked xs e []) = (refl, refl)
move-run cap (marked xs e (f ∷ es)) = (refl, refl)
move-run cap (spent e []) = (refl, refl)
move-run cap (spent e (f ∷ es)) = (refl, refl)

pub move-get : (cap : Option ℕ) (p : Phase) → (get (async cap p)).1 ≡ async cap (after_get p)
unfolding get take_next
move-get cap (opened [] ys) = refl
move-get cap (opened (x ∷ xs) ys) =
    ap (λ n. record (async cap (opened xs ys)) { size = n }) (omega arith)
move-get cap (ending [] ys e es) = refl
move-get cap (ending (x ∷ xs) ys e es) =
    ap (λ n. record (async cap (ending xs ys e es)) { size = n }) (omega arith)
move-get cap (marked [] e es) = refl
move-get cap (marked (x ∷ xs) e es) =
    ap (λ n. record (async cap (marked xs e es)) { size = n }) (omega arith)
move-get cap (spent e es) = refl

-- What a put comes to: the same answer on both sides, and the phase after it.
abbrev pub Puts : Option ℕ → Bytes → Phase → Type 0
Puts cap item p =
    (q : Phase) × (is_opened q ≡ true)
    × ((put (async cap p) item).0 ≡ (Mailbox.put (sync cap p) item).0)
    × ((put (async cap p) item).1 ≡ async cap q)
    × ((Mailbox.put (sync cap p) item).1 ≡ sync cap q)

accepted_async :
    (cap : Option ℕ) (item : Bytes) (xs ys : List Bytes)
    → call_soon (puts item) (record (async cap (opened xs ys)) { size = length (xs ++ ys) + 1 })
      ≡ async cap (opened xs (ys ++ item ∷ []))
unfolding call_soon
accepted_async cap item xs ys =
    let e : length (xs ++ ys) + 1 ≡ length (xs ++ (ys ++ item ∷ [])) = omega (
      arith,
      length-append xs ys,
      length-append xs (ys ++ item ∷ []),
      length-append ys (item ∷ []),
    ) in
    rw (e, map-append) refl

pub move-put : (cap : Option ℕ) (item : Bytes) (xs ys : List Bytes) → Puts cap item (opened xs ys)
unfolding put is_full Mailbox.put Mailbox.is_full
move-put none item xs ys =
    (opened xs (ys ++ item ∷ []), refl, refl, accepted_async none item xs ys, rw append_assoc refl)
move-put (some n) item xs ys = elim (Bool-cases (leb n (length (xs ++ ys)))) [
  | inl full ↦ rw full (opened xs ys, refl, refl, refl, refl)
  | inr room ↦ rw room (
    opened xs (ys ++ item ∷ []),
    refl,
    refl,
    accepted_async (some n) item xs ys,
    rw append_assoc refl,
  )
]
