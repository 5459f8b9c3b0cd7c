-- ===== src/Prelude/Table.antt =====
-- Tables of a database: rows in the order of their insertion, some with a text as primary key.
use mathlib.Core.List.Perm
use mathlib.Core.List.{Perm}
use text.Mathlib.TextEquality.{eq_iff}
use okx_hft_executor.Prelude.{
  ℕ, ◌≤◌, String, ◌≡◌, Option, none, some, List, [], ◌∷◌, ◌++◌, arith, str_eq, leb, if◌then◌else◌,
  option_map, inl, inr, Bool-cases, All,
}

module _ {ℓ} {R : Type ℓ} (key : R → String) where
  -- The row with this primary key.
  unfoldable pub find_row : String → List R → Option R
  find_row k [] = none
  find_row k (r ∷ rs) = if str_eq (key r) k then some r else find_row k rs

  unfoldable pub remove_row : String → List R → List R
  remove_row k [] = []
  remove_row k (r ∷ rs) = let rest = remove_row k rs in if str_eq (key r) k then rest else r ∷ rest

  -- `INSERT OR REPLACE INTO`
  unfoldable pub put_row : R → List R → List R
  unfolding remove_row
  put_row r rs = remove_row (key r) rs ++ r ∷ []

  -- `INSERT INTO ... ON CONFLICT DO NOTHING`
  unfoldable pub add_row : R → List R → List R
  unfolding find_row
  add_row r rs = elim (find_row (key r) rs) [ none ↦ rs ++ r ∷ [] | some _ ↦ rs ]

  -- `UPDATE ... WHERE <key> = ?`
  unfoldable pub update_row : String → (R → R) → List R → List R
  update_row k f [] = []
  update_row k f (r ∷ rs) = (if str_eq (key r) k then f r else r) ∷ update_row k f rs

  find_row-last :
      (k j : String) (r : R) (rs : List R)
      → find_row k (remove_row j rs ++ r ∷ []) ≡ (
          if str_eq j k then (if str_eq (key r) k then some r else none) else elim (find_row k rs) [
            | none ↦ if str_eq (key r) k then some r else none
            | some q ↦ some q
          ])
  unfolding find_row remove_row
  find_row-last k j r [] = ground arith
  find_row-last k j r (q ∷ rs) = ground (
    arith,
    eq_iff (key q) j,
    eq_iff (key q) k,
    eq_iff j k,
    eq_iff (key r) k,
    find_row-last k j r rs,
  )

  pub find_row-put_row :
      (k : String) (r : R) (rs : List R)
      → find_row k (put_row r rs) ≡ (if str_eq (key r) k then some r else find_row k rs)
  unfolding put_row
  find_row-put_row k r rs = ground (arith, find_row-last k (key r) r rs)

  pub find_row-update_row :
      (k j : String) (f : R → R) (rs : List R)
      → ((r : R) → key (f r) ≡ key r)
      → find_row k (update_row j f rs)
        ≡ (if str_eq j k then option_map f (find_row k rs) else find_row k rs)
  unfolding find_row update_row
  find_row-update_row k j f [] same = ground arith
  find_row-update_row k j f (r ∷ rs) same = ground (
    arith,
    same r,
    eq_iff (key r) j,
    eq_iff (key r) k,
    eq_iff j k,
    find_row-update_row k j f rs same,
  )

module _ {ℓ} {R : Type ℓ} (order : R → ℕ) where
  -- `ORDER BY ... ASC`; rows that tie stay in the order of the table.
  unfoldable pub insert_ordered : R → List R → List R
  insert_ordered r [] = r ∷ []
  insert_ordered r (q ∷ qs) =
      let rest = insert_ordered r qs in if leb (order r) (order q) then r ∷ q ∷ qs else q ∷ rest

  unfoldable pub order_by : List R → List R
  unfolding insert_ordered
  order_by [] = []
  order_by (r ∷ rs) = insert_ordered r (order_by rs)

  -- Each row comes no later than the next.
  abbrev pub IsOrdered : List R → Type 0
  IsOrdered [] = Unit
  IsOrdered (r ∷ []) = Unit
  IsOrdered (r ∷ q ∷ qs) = (order r ≤ order q) × IsOrdered (q ∷ qs)

  insert_ordered-IsOrdered : (r : R) (qs : List R) → IsOrdered qs → IsOrdered (insert_ordered r qs)
  unfolding insert_ordered
  insert_ordered-IsOrdered r [] h = ground arith
  insert_ordered-IsOrdered r (q ∷ []) h = ground arith
  insert_ordered-IsOrdered r (q ∷ p ∷ qs) h =
      ground (arith, insert_ordered-IsOrdered r (p ∷ qs) h.1)

  pub order_by-IsOrdered : (rs : List R) → IsOrdered (order_by rs)
  unfolding order_by
  order_by-IsOrdered [] = tt
  order_by-IsOrdered (r ∷ rs) = insert_ordered-IsOrdered r (order_by rs) (order_by-IsOrdered rs)

  insert_ordered-perm : (r : R) (qs : List R) → Perm (insert_ordered r qs) (r ∷ qs)
  unfolding insert_ordered
  insert_ordered-perm r [] = Perm.refl _
  insert_ordered-perm r (q ∷ qs) = elim (Bool-cases (leb (order r) (order q))) [
    | inl here ↦ rw here (Perm.refl _)
    | inr later ↦ rw later (Perm.trans (Perm.cons q (insert_ordered-perm r qs)) (Perm.swap r q qs))
  ]

  pub order_by-perm : (rs : List R) → Perm (order_by rs) rs
  unfolding order_by
  order_by-perm [] = Perm.refl _
  order_by-perm (r ∷ rs) =
      Perm.trans (insert_ordered-perm r (order_by rs)) (Perm.cons r (order_by-perm rs))

module _ {ℓ κ} {R : Type ℓ} (order : R → ℕ) (P : R → Type κ) where
  insert_ordered-All : (r : R) (qs : List R) → P r → All P qs → All P (insert_ordered order r qs)
  unfolding insert_ordered
  insert_ordered-All r [] h hs = (h, tt)
  insert_ordered-All r (q ∷ qs) h hs = elim (Bool-cases (leb (order r) (order q))) [
    | inl here ↦ rw here (h, hs)
    | inr later ↦ rw later (hs.0, insert_ordered-All r qs h hs.1)
  ]

  pub order_by-All : (rs : List R) → All P rs → All P (order_by order rs)
  unfolding order_by
  order_by-All [] h = tt
  order_by-All (r ∷ rs) h = insert_ordered-All r (order_by order rs) h.0 (order_by-All rs h.1)
