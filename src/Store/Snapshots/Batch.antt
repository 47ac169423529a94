-- ===== src/Store/Snapshots/Batch.antt =====
-- A batch of snapshots moves the cursor past a row.
use Prim.Native.String.{compare}
use text.Mathlib.Text.{is_lt}
use general_webhook.Base.{
  ℕ, zero, suc, ◌+◌, ◌-◌, ◌<◌, ◌≤◌, String, Bool, true, false, not, ◌&&◌, Option, none, some, List,
  [], ◌∷◌, length, ◌≡◌, refl, ap, ◌∙◌, subst, arith, inl, inr, Bool-cases, Memᴰ, All, All-map,
  str_eq, ltb, leb, take, count_where, update_where,
}
use general_webhook.Store.Rows.{EventRow, Db}
use general_webhook.Store.Snapshots.{
  is_beyond, raw_of, insert_row, snapshot_rows, fill, snapshot_batch, size_of, batch_bytes, last_id,
}
use general_webhook.Store.Snapshots.Order.{lt_irrefl, lt_trans}

-- The rows that the cursor has not passed.
abbrev pub remaining : Option String → Db → ℕ
remaining after d = count_where (is_beyond after) d.events

module _ {A : Type 0} where
  pub count_where-length : (p : A → Bool) (xs : List A) → count_where p xs ≤ length xs
  unfolding count_where
  count_where-length p [] = omega arith
  count_where-length p (x ∷ xs) = ground (arith, count_where-length p xs)

  count_where-le :
      (p q : A → Bool) (xs : List A)
      → ((x : A) → q x ≡ true → p x ≡ true)
      → count_where q xs ≤ count_where p xs
  unfolding count_where
  count_where-le p q [] h = omega arith
  count_where-le p q (x ∷ xs) h = ground (arith, h x, count_where-le p q xs h)

  -- A stronger test that fails on a row counts fewer.
  count_where-less :
      (p q : A → Bool) (xs : List A) (r : A)
      → ((x : A) → q x ≡ true → p x ≡ true)
      → Memᴰ r xs
      → p r ≡ true
      → q r ≡ false
      → count_where q xs < count_where p xs
  unfolding count_where
  count_where-less p q [] r h m e f = elim m [ ]
  count_where-less p q (x ∷ xs) r h (Memᴰ.head s) e f =
      let pe : p x ≡ true = subst (λ y. p y ≡ true) s e in
      let qf : q x ≡ false = subst (λ y. q y ≡ false) s f in
      rw (pe, qf) (omega (arith, count_where-le p q xs h))
  count_where-less p q (x ∷ xs) r h (Memᴰ.tail m) e f =
      ground (arith, h x, count_where-less p q xs r h m e f)

  pub count_where-update :
      (p q : A → Bool) (f : A → A) (xs : List A)
      → ((x : A) → q (f x) ≡ q x)
      → count_where q (update_where p f xs) ≡ count_where q xs
  unfolding count_where update_where
  count_where-update p q f [] h = refl
  count_where-update p q f (x ∷ xs) h = elim (Bool-cases (p x)) [
    | inl e ↦ rw (e, h x, count_where-update p q f xs h) refl
    | inr e ↦ rw (e, count_where-update p q f xs h) refl
  ]

-- A row of a batch is a row of the table beyond the cursor.
abbrev IsFrom : Option String → List EventRow → String × String → Type 0
IsFrom after events row =
    (r : EventRow) × Memᴰ r events × (is_beyond after r ≡ true) × (r.id ≡ row.0)

module _ (P : String × String → Type 0) where
  insert_row-All :
      (row : String × String) (rows : List (String × String))
      → P row
      → All P rows
      → All P (insert_row row rows)
  unfolding insert_row
  insert_row-All row [] h a = (h, tt)
  insert_row-All row (r ∷ rows) h a = elim (Bool-cases (is_lt (compare r.0 row.0))) [
    | inl e ↦ rw (e, insert_row) (a.0, insert_row-All row rows h a.1)
    | inr e ↦ rw (e, insert_row) (h, a)
  ]

  take-All : (n : ℕ) (rows : List (String × String)) → All P rows → All P (take n rows)
  take-All zero rows a = tt
  take-All (suc n) [] a = tt
  take-All (suc n) (r ∷ rows) a = (a.0, take-All n rows a.1)

  fill-All : (b : Bool) (n : ℕ) (rows : List (String × String)) → All P rows → All P (fill b n rows)
  unfolding fill
  fill-All b n [] a = tt
  fill-All b n (r ∷ rows) a = elim (Bool-cases (not b && ltb (batch_bytes - n) (size_of r))) [
    | inl e ↦ rw (e, fill) tt
    | inr e ↦ elim (Bool-cases (leb batch_bytes (n + size_of r))) [
      | inl f ↦ rw (e, f, fill) (a.0, tt)
      | inr f ↦ rw (e, f, fill) (a.0, fill-All false (n + size_of r) rows a.1)
    ]
  ]

  last_id-All :
      (row : String × String) (rows : List (String × String))
      → All P (row ∷ rows)
      → (last : String × String) × P last × (last_id row rows ≡ last.0)
  last_id-All row [] a = (row, a.0, refl)
  last_id-All row (r ∷ rows) a = last_id-All r rows a.1

snapshot_rows-IsFrom :
    (after : Option String) (events : List EventRow)
    → All (IsFrom after events) (snapshot_rows after events)
unfolding snapshot_rows
snapshot_rows-IsFrom after [] = tt
snapshot_rows-IsFrom after (r ∷ rs) =
    let rest =
      All-map (IsFrom after rs) (IsFrom after (r ∷ rs)) (λ row h. (h.0, Memᴰ.tail h.1, h.2, h.3)) _
        (snapshot_rows-IsFrom after rs) in
    elim (Bool-cases (is_beyond after r && not (str_eq (raw_of r) ""))) [
      | inl e ↦
          rw (e, snapshot_rows)
            (insert_row-All (IsFrom after (r ∷ rs)) (r.id, raw_of r) _
              (r, Memᴰ.head refl, ground (arith, e), refl) rest)
      | inr e ↦ rw (e, snapshot_rows) rest
    ]

-- A later cursor leaves no more rows, and not the one it stands at.
beyond_less :
    (after : Option String) (d : Db) (row : String × String)
    → IsFrom after d.events row
    → remaining (some row.0) d < remaining after d
beyond_less none d row (r, m, b, e) =
    count_where-less _ _ d.events r (λ x h. refl) m b
      (ap (λ s. is_lt (compare row.0 s)) e ∙ lt_irrefl row.0)
beyond_less (some a) d row (r, m, b, e) =
    let first : is_lt (compare a row.0) ≡ true = subst (λ s. is_lt (compare a s) ≡ true) e b in
    count_where-less _ _ d.events r (λ x h. lt_trans a row.0 x.id first h) m b
      (ap (λ s. is_lt (compare row.0 s)) e ∙ lt_irrefl row.0)

pub batch_less :
    (after : Option String) (d : Db) (row : String × String) (rows : List (String × String))
    → snapshot_batch after d ≡ row ∷ rows
    → remaining (some (last_id row rows)) d < remaining after d
unfolding snapshot_batch
batch_less after d row rows h =
    let found =
      fill-All (IsFrom after d.events) true 0 _
        (take-All (IsFrom after d.events) 128 _ (snapshot_rows-IsFrom after d.events)) in
    let (last, from, same) =
      last_id-All (IsFrom after d.events) row rows (subst (All (IsFrom after d.events)) h found) in
    rw same (beyond_less after d last from)
