-- ===== src/Store/Snapshots.antt =====
-- internal/store/snapshots.go: RewriteActionSnapshots, with a callback that is not nil, and
-- actionSnapshotBatch.
pub mod Order
pub mod Batch
pub mod Ends
use Prim.Native.String.{len, compare}
use text.Mathlib.Text.{is_lt}
use general_webhook.Base.{
  ℕ, zero, suc, ◌+◌, ◌-◌, String, Bool, true, false, not, ◌&&◌, ◌||◌, Option, none, some, List, [],
  ◌∷◌, ltb, leb, str_eq, if◌then◌else◌, take, coalesce,
}
use general_webhook.Store.Rows.{EventRow, Db, has_id}
use general_webhook.Store.Tx.{
  Tx, Result, ok, err, pure, statement, query, caught, update_events, ◌>>=◌, ◌>>◌,
}

-- id > after, by the bytes of the texts.
abbrev pub is_beyond : Option String → EventRow → Bool
is_beyond none r = true
is_beyond (some after) r = is_lt (compare after r.id)

-- actions_json IS NOT NULL AND actions_json != ''
abbrev raw_of : EventRow → String
raw_of r = coalesce r.actions_json ""

-- ORDER BY id
unfoldable pub insert_row : String × String → List (String × String) → List (String × String)
insert_row row [] = row ∷ []
insert_row row (r ∷ rows) =
    let rest = insert_row row rows in if is_lt (compare r.0 row.0) then r ∷ rest else row ∷ r ∷ rows

-- The ids and snapshots of the SELECT, without its limit.
unfoldable pub snapshot_rows : Option String → List EventRow → List (String × String)
unfolding insert_row
snapshot_rows after [] = []
snapshot_rows after (r ∷ rs) =
    let rest = snapshot_rows after rs in
    if is_beyond after r && not (str_eq (raw_of r) "")
    then insert_row (r.id, raw_of r) rest
    else rest

abbrev pub batch_bytes : ℕ
batch_bytes = 1_048_576

abbrev pub size_of : String × String → ℕ
size_of row = len row.0 + len row.1

-- The rows of a batch: the first, and more until their bytes fill it.
unfoldable pub fill : Bool → ℕ → List (String × String) → List (String × String)
fill is_first bytes [] = []
fill is_first bytes (row ∷ rows) =
    let rest = fill false (bytes + size_of row) rows in
    if not is_first && ltb (batch_bytes - bytes) (size_of row)
    then []
    else row ∷ (if leb batch_bytes (bytes + size_of row) then [] else rest)

unfoldable pub snapshot_batch : Option String → Db → List (String × String)
unfolding snapshot_rows fill
snapshot_batch after d = fill true 0 (take 128 (snapshot_rows after d.events))

abbrev has_json : String → Option String → Bool
has_json raw none = false
has_json raw (some json) = str_eq json raw

abbrev pub with_json : String → EventRow → EventRow
with_json json r = record r { actions_json = some json }

-- UPDATE events SET actions_json = ? WHERE id = ? AND actions_json = ?
unfoldable pub rewrite_row : String → String → String → Db → ℕ × Db
unfolding update_events
rewrite_row id raw updated =
    update_events (λ r. has_id id r && has_json raw r.actions_json) (with_json updated)

-- How a batch and the whole end, with the number of rows changed.
pub data Progress : Type 0 where
  goes_on fails_at : ℕ → Progress

pub data Rewritten : Type 0 where
  finished failed : ℕ → Rewritten
  out_of_fuel : Rewritten

-- The id of the last row of a batch.
abbrev pub last_id : String × String → List (String × String) → String
last_id row [] = row.0
last_id row (r ∷ rows) = last_id r rows

-- `rewrite` answers nothing where it returns an error; `canceled` is whether the context has ended when
-- the row with an id is reached.
module _ (rewrite : String → Option String) (canceled : String → Bool) where
  unfoldable pub after_update : (ℕ → Tx Progress) → ℕ → Result ℕ → Tx Progress
  after_update rest changed (ok n) = rest (changed + n)
  after_update rest changed (err e) = pure (fails_at changed)

  unfoldable pub rewrite_rows : List (String × String) → ℕ → Tx Progress
  unfolding after_update
  rewrite_rows [] changed = pure (goes_on changed)
  rewrite_rows (row ∷ rows) changed =
      let rest = rewrite_rows rows in
      if canceled row.0 then pure (fails_at changed) else elim (rewrite row.1) [
        | none ↦ pure (fails_at changed)
        | some updated ↦ if str_eq updated row.1 then rest changed else (do
          written ← caught (statement (rewrite_row row.0 row.1 updated))
          after_update rest changed written)
      ]

  unfoldable pub after_rows : (Option String → ℕ → Tx Rewritten) → String → Progress → Tx Rewritten
  after_rows next last (goes_on changed) = next (some last) changed
  after_rows next last (fails_at changed) = pure (failed changed)

  unfoldable pub after_batch :
      (Option String → ℕ → Tx Rewritten) → ℕ → Result (List (String × String)) → Tx Rewritten
  unfolding rewrite_rows after_rows
  after_batch next changed (err e) = pure (failed changed)
  after_batch next changed (ok []) = pure (finished changed)
  after_batch next changed (ok (row ∷ rows)) = do
    progress ← rewrite_rows (row ∷ rows) changed
    after_rows next (last_id row rows) progress

  -- The loop, a batch for each unit of fuel.
  unfoldable pub rewrite_batches : ℕ → Option String → ℕ → Tx Rewritten
  unfolding after_batch snapshot_batch
  rewrite_batches zero after changed = pure out_of_fuel
  rewrite_batches (suc fuel) after changed = do
    batch ← caught (query (snapshot_batch after))
    after_batch (rewrite_batches fuel) changed batch

  unfoldable pub rewrite_action_snapshots : ℕ → Tx Rewritten
  unfolding rewrite_batches
  rewrite_action_snapshots fuel = rewrite_batches fuel none 0
