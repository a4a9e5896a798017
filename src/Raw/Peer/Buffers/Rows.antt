-- ===== src/Raw/Peer/Buffers/Rows.antt =====
-- `get_connection_list` and `get_statistics_list` return what RakNet holds.
use mathlib.Core.Option
use mathlib.Core.List.{append-nil}
use raknet_python.Prelude.{
  ℕ, zero, suc, ◌-◌, ◌%◌, ◌≤◌, ◌∙◌, ◌≡◌, refl, ap, sym, subst, Bool, true, false, replicate, ◌==◌,
  nat_eq, some, List, [], ◌∷◌, map, arith, length, take, inl, inr, Bool-cases, if◌then◌else◌,
}
use raknet_python.Prelude.Int.{to_ushort}
use raknet_python.Raw.Interface.{RakNet, RakNetGuid}
use raknet_python.Raw.Peer.Buffers.{rows, resize, get_connection_list, get_statistics_list}

-- Three parallel lists give a list of rows with just those columns.
rows_total {ℓ} :
    {A B C : Type ℓ} (xs : List A) (ys : List B) (zs : List C)
    → length ys ≡ length xs
    → length zs ≡ length xs
    → (t : List (A × B × C)) × (rows xs ys zs ≡ some t)
      × (map (λ r. r.0) t ≡ xs)
      × (map (λ r. r.1) t ≡ ys)
      × (map (λ r. r.2) t ≡ zs)
unfolding rows
rows_total [] [] [] p q = ([], refl, refl, refl, refl)
rows_total [] (y ∷ ys) zs p q = absurd (omega arith)
rows_total [] [] (z ∷ zs) p q = absurd (omega arith)
rows_total (x ∷ xs) [] zs p q = absurd (omega arith)
rows_total (x ∷ xs) (y ∷ ys) [] p q = absurd (omega arith)
rows_total (x ∷ xs) (y ∷ ys) (z ∷ zs) p q =
    let (t, e, a, b, c) = rows_total xs ys zs (omega arith) (omega arith) in
    (
      (x, y, z) ∷ t,
      ap (Option.map (λ t. (x, y, z) ∷ t)) e,
      ap (◌∷◌ x) a,
      ap (◌∷◌ y) b,
      ap (◌∷◌ z) c,
    )

take-resize {ℓ} :
    {A : Type ℓ} (a : A) (n : ℕ) (xs : List A) → n ≤ length xs → resize a n xs ≡ take n xs
unfolding resize
take-resize a n xs h = let e : n - length xs ≡ 0 = omega arith in rw (e, append-nil)

nil-resize {ℓ} : {A : Type ℓ} (a : A) (n : ℕ) → resize a n [] ≡ replicate n a
unfolding resize
nil-resize a zero = refl
nil-resize a (suc n) = let e : suc n - 0 ≡ suc n = omega arith in rw e refl

module _ (R : RakNet) where
  open R use {RakPeerInterface, SystemAddress, RakNetStatistics}

  -- Where RakNet fills its three lists to the same length, `get_statistics_list` reads none of them
  -- out of range, and the columns of its rows are those lists.
  get_statistics_list_columns :
      (self : RakPeerInterface)
      → length (R.get_statistics_list self).1.0 ≡ length (R.get_statistics_list self).0
      → length (R.get_statistics_list self).1.1 ≡ length (R.get_statistics_list self).0
      → (t : List (SystemAddress × RakNetGuid × RakNetStatistics)) × (get_statistics_list R self
          ≡ some t)
        × (map (λ r. r.0) t ≡ (R.get_statistics_list self).0)
        × (map (λ r. r.1) t ≡ (R.get_statistics_list self).1.0)
        × (map (λ r. r.2) t ≡ (R.get_statistics_list self).1.1)
  unfolding get_statistics_list
  get_statistics_list_columns self p q = rows_total _ _ _ p q

  -- What RakNet documents of `GetConnectionList` where it succeeds: it writes its connections into
  -- the caller's array, as many as fit, and leaves their number in the count; for a null array the
  -- count becomes the number of connections, an `unsigned short`.
  pub record ListsConnections (connected : RakPeerInterface → List SystemAddress) : Type 0 where
    pub counts :
        (n : ℕ) (self : RakPeerInterface)
        → (R.get_connection_list true n self).0 ≡ true
        → (R.get_connection_list true n self).1.1 ≤ length (R.get_connection_list true n self).1.0
    pub writes :
        (n : ℕ) (self : RakPeerInterface)
        → (R.get_connection_list true n self).0 ≡ true
        → take (R.get_connection_list true n self).1.1 (R.get_connection_list true n self).1.0
          ≡ take n (connected self)
    pub counts_all :
        (self : RakPeerInterface)
        → (R.get_connection_list false 0 self).0 ≡ true
        → (R.get_connection_list false 0 self).1 ≡ ([], length (connected self) % 65536)

  listed :
      (connected : RakPeerInterface → List SystemAddress)
      → ListsConnections connected
      → (self : RakPeerInterface) (array : Bool) (n : ℕ) → (array ≡ false → n ≡ 0)
      → (R.get_connection_list array n self).0 ≡ true
      → resize R.default_system_address
          (R.get_connection_list array n self).1.1
          (R.get_connection_list array n self).1.0
        ≡ (if array
            then take n (connected self)
            else replicate (length (connected self) % 65536) R.default_system_address)
  unfolding resize
  listed connected law self true n empty ok =
      take-resize _ _ _ (law.counts n self ok) ∙ law.writes n self ok
  listed connected law self false n empty ok =
      let none' : n ≡ 0 = empty refl in
      let e : (R.get_connection_list false n self).1 ≡ ([], length (connected self) % 65536) =
        subst (λ m. (R.get_connection_list false m self).1 ≡ ([], length (connected self) % 65536))
          (sym none')
          (law.counts_all self
            (subst (λ m. (R.get_connection_list false m self).0 ≡ true) none' ok)) in
      ap (λ (o : List SystemAddress × ℕ). resize R.default_system_address o.1 o.0) e
      ∙ nil-resize R.default_system_address (length (connected self) % 65536)

  -- Where RakNet lists its connections as documented, `get_connection_list` is empty where RakNet
  -- refuses. Else it holds the first connections, as many as the largest number of peers, modulo
  -- 65536, and no filler addresses; but where that number is zero and an empty vector has no data,
  -- it holds one filler address for each connection, modulo 65536.
  pub get_connection_list_prefix :
      (connected : RakPeerInterface → List SystemAddress)
      → ListsConnections connected
      → (self : RakPeerInterface)
      → let n = R.get_maximum_number_of_peers self % 65536 in
        let array = if n == 0 then R.empty_vector_has_data else true in
        get_connection_list R self ≡ (
          if (R.get_connection_list array n self).0
          then (if array
              then take n (connected self)
              else replicate (length (connected self) % 65536) R.default_system_address)
          else [])
  unfolding get_connection_list to_ushort
  get_connection_list_prefix connected law self =
      let n = R.get_maximum_number_of_peers self % 65536 in
      let array = if n == 0 then R.empty_vector_has_data else true in
      elim (Bool-cases (R.get_connection_list array n self).0) [
        | inl ok ↦ rw ok (listed connected law self array n (λ e. ground arith) ok)
        | inr failed ↦ rw failed
      ]
