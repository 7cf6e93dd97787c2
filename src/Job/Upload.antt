-- ===== src/Job/Upload.antt =====
-- job/run_file_upload_tasks/job.go: the rows of a task's file become batches of tag values, which
-- the loop of the task writes while it counts the results. A task's goroutine is a function of what
-- its calls answer and of what its channels deliver.
pub mod Rows
pub mod Loop
pub mod Sound
pub mod Success
use mirror_backend.Common.{
  ℕ, ◌+◌, Bool, true, false, ◌||◌, String, Option, none, some, List, [], ◌∷◌, ◌++◌, ◌==◌, leb, ltb,
  if◌then◌else◌, length, Result, ok, err,
}
use mirror_backend.Entity.Tag.{Tag, TagValue, format_tag_value}
use mirror_backend.Entity.Ud.{Ud, id_type_email}
use mirror_backend.Value.{Floats}

abbrev pub batch_size : ℕ
batch_size = 3000

-- TagVal of entity/tag.go, with its `interface{}`
pub record TagVal (F : Type 0) : Type 0 where
  pub tag_id : Option ℕ
  pub tag_val : TagValue F

pub record UdTagVal (F : Type 0) : Type 0 where
  pub ud : Ud
  pub tag_vals : List (TagVal F)

-- how the loop over the rows ends
pub data Split (A : Type 0) : Type 0 where
  split_into : List (List A) → Split A
  -- a row without two cells: the task fails, and the goroutine returns nil
  invalid_row : List String → Split A
  -- a value that the tag does not take
  invalid_value : Split A
  -- the message of such a value reads `rows[1]`, where the file has one row
  row_panic : Split A

module _ (floats : Floats) where
  open floats use {Float}

  abbrev pub ud_tag_val : Option ℕ → String → TagValue Float → UdTagVal Float
  ud_tag_val resource_id id v = record {
    ud = record { id = some id; id_type = id_type_email };
    tag_vals = record { tag_id = resource_id; tag_val = v } ∷ [];
  }

module _ (floats : Floats) (tag : Tag) (resource_id : Option ℕ) (row_count : ℕ) where
  open floats use {Float}

  -- the end of a turn: `batch` holds the new value, and goes to `batches` where it is full or the
  -- row is the last one
  abbrev pub is_full : ℕ → List (UdTagVal Float) → Bool
  is_full i batch = leb batch_size (length batch) || (i + 1 == row_count)

  unfoldable pub split_from :
      ℕ
      → List (List String)
      → List (UdTagVal Float)
      → List (List (UdTagVal Float))
      → Split (UdTagVal Float)
  split_from i [] batch batches = split_into batches
  split_from i ((id ∷ value ∷ []) ∷ rows) batch batches =
      elim (format_tag_value floats (some tag) value) [
        | err e ↦ if ltb 1 row_count then invalid_value else row_panic
        | ok v ↦
            let filled = batch ++ ud_tag_val floats resource_id id v ∷ [] in
            let flush = is_full i filled in
            split_from (i + 1) rows (if flush then [] else filled)
              (if flush then batches ++ filled ∷ [] else batches)
      ]
  split_from i (row ∷ rows) batch batches = invalid_row row

unfoldable pub split_rows :
    (floats : Floats) → Tag → Option ℕ → List (List String) → Split (UdTagVal (Floats.Float floats))
unfolding split_from
split_rows floats tag resource_id rows =
    split_from floats tag resource_id (length rows) 0 rows [] []
