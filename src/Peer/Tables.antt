-- ===== src/Peer/Tables.antt =====
-- What the peer's tables keep true of the objects that they refer to, for one table and one store.
use raknet_python.Prelude.{
  ℕ, ◌<◌, ◌≡◌, Bool, false, String, some, arith, ◌==◌, nat_eq, string_eq, Bool-cases, inl, inr,
}
use raknet_python.Prelude.Dict.{Dict, lookup, insert, erase, lookup-insert, lookup-erase}
use raknet_python.Prelude.Objects.{Ref, Objects, put_at, alloc}
use raknet_python.Peer.{Connection}

-- Every object that has been made satisfies `P`.
abbrev pub AllAt {ℓ κ} : {A : Type ℓ} → (A → Type κ) → Objects A → Type κ
AllAt P s = (r : Ref) → r < s.next → P (s.at r)

module _ {ℓ κ} {A : Type ℓ} (P : A → Type κ) where
  pub put_at-AllAt :
      (r : Ref) (a : A) (s : Objects A) → (r < s.next → P a) → AllAt P s → AllAt P (put_at r a s)
  put_at-AllAt r a s here others q h = elim (Bool-cases (r == q)) [
    | inl same ↦ rw same (here (ground arith))
    | inr other ↦ rw other (others q h)
  ]

  pub alloc-AllAt : (a : A) (s : Objects A) → P a → AllAt P s → AllAt P (alloc a s)
  alloc-AllAt a s here others q h = elim (Bool-cases (s.next == q)) [
    | inl same ↦ rw same here
    | inr other ↦ rw other (others q (ground arith))
  ]

-- A table of pending calls: each entry is an object whose event is not set, and no two entries are
-- the same object.
pub record Waits {A : Type 0} (event : A → Bool) (d : Dict String Ref) (s : Objects A)
    : Type 0 where
  pub made : (k : String) (r : Ref) → lookup k d ≡ some r → r < s.next
  pub unset : (k : String) (r : Ref) → lookup k d ≡ some r → event (s.at r) ≡ false
  pub distinct : (j k : String) (r : Ref) → lookup j d ≡ some r → lookup k d ≡ some r → j ≡ k

module _ {A : Type 0} {event : A → Bool} {d : Dict String Ref} {s : Objects A}
    (w : Waits event d s) where
  pub erase-Waits : (k : String) → Waits event (erase k d) s
  erase-Waits k = record {
    made = λ j r h. w.made j r (found j r h);
    unset = λ j r h. w.unset j r (found j r h);
    distinct = λ i j r g h. w.distinct i j r (found i r g) (found j r h);
  }
    where
      found : (j : String) (r : Ref) → lookup j (erase k d) ≡ some r → lookup j d ≡ some r
      found j r h = ground (arith, lookup-erase j k d)

  -- An entry is taken out, and its object is settled in any way.
  pub settle-Waits :
      (k : String) (q : Ref) (a : A) → lookup k d ≡ some q → Waits event (erase k d) (put_at q a s)
  settle-Waits k q a e = record {
    made = (erase-Waits k).made;
    unset = λ j r h.
        ground (arith, lookup-erase j k d, string_eq.same_iff k j, w.distinct j k r, w.unset j r);
    distinct = (erase-Waits k).distinct;
  }

  -- A new object is entered, perhaps in the place of another one.
  pub register-Waits :
      (k : String) (a : A) → event a ≡ false → Waits event (insert k s.next d) (alloc a s)
  register-Waits k a fresh = record {
    made = λ j r h. ground (arith, lookup-insert j k s.next d, w.made j r);
    unset = λ j r h. ground (arith, lookup-insert j k s.next d, w.made j r, w.unset j r);
    distinct = λ i j r g h. ground (
      arith,
      lookup-insert i k s.next d,
      lookup-insert j k s.next d,
      string_eq.same_iff k i,
      string_eq.same_iff k j,
      w.made i r,
      w.made j r,
      w.distinct i j r,
    );
  }

-- The table of connections: each entry is an open connection that has been made, under its guid.
pub record IsTracked {A : Type 0} (d : Dict ℕ Ref) (s : Objects (Connection A)) : Type 0 where
  pub made : (g : ℕ) (r : Ref) → lookup g d ≡ some r → r < s.next
  pub guid : (g : ℕ) (r : Ref) → lookup g d ≡ some r → (s.at r).raw_guid.g ≡ g
  pub opened : (g : ℕ) (r : Ref) → lookup g d ≡ some r → (s.at r).closed ≡ false

module _ {A : Type 0} {d : Dict ℕ Ref} {s : Objects (Connection A)} (t : IsTracked d s) where
  pub track-IsTracked :
      (c : Connection A) → c.closed ≡ false → IsTracked (insert c.raw_guid.g s.next d) (alloc c s)
  track-IsTracked c fresh = record {
    made = λ g r h. ground (arith, lookup-insert g c.raw_guid.g s.next d, t.made g r);
    guid = λ g r h. ground (arith, lookup-insert g c.raw_guid.g s.next d, t.made g r, t.guid g r);
    opened =
        λ g r h. ground (arith, lookup-insert g c.raw_guid.g s.next d, t.made g r, t.opened g r);
  }

  -- The connection under a guid leaves the table, and may be closed.
  pub erase-IsTracked :
      (q : Ref) (c : Connection A) (g : ℕ)
      → (s.at q).raw_guid.g ≡ g
      → IsTracked (erase g d) (put_at q c s)
  erase-IsTracked q c k same = record {
    made = λ g r h. ground (arith, lookup-erase g k d, t.made g r);
    guid = λ g r h. ground (arith, lookup-erase g k d, t.guid g r);
    opened = λ g r h. ground (arith, lookup-erase g k d, t.guid g r, t.opened g r);
  }

  pub forget-IsTracked : (g : ℕ) → IsTracked (erase g d) s
  forget-IsTracked k = record {
    made = λ g r h. ground (arith, lookup-erase g k d, t.made g r);
    guid = λ g r h. ground (arith, lookup-erase g k d, t.guid g r);
    opened = λ g r h. ground (arith, lookup-erase g k d, t.opened g r);
  }

  -- A connection changes, but not in its guid and not in being open.
  pub write-IsTracked :
      (q : Ref) (c : Connection A)
      → c.raw_guid.g ≡ (s.at q).raw_guid.g
      → c.closed ≡ (s.at q).closed
      → IsTracked d (put_at q c s)
  write-IsTracked q c same still = record {
    made = λ g r h. t.made g r h;
    guid = λ g r h. ground (arith, t.guid g r);
    opened = λ g r h. ground (arith, t.opened g r);
  }
