-- ===== src/Examples/Uploads.antt =====
-- A file of two rows, and the loop that writes its batch.
use mathlib.Core.List.{flatten}
use mirror_backend.Common.{
  ℕ, String, none, some, List, [], ◌∷◌, length, All, each_nil, each_cons, ◌≡◌, refl, arith,
}
use mirror_backend.Entity.Tag.{Tag, TagValue, format_tag_value}
use mirror_backend.Entity.Tag as Tag
use mirror_backend.Entity.Task.{Task, update}
use mirror_backend.Job.Campaign.Batches.Cover.{IsBatch}
use mirror_backend.Job.Upload.{batch_size, UdTagVal, split_into, ud_tag_val, split_rows}
use mirror_backend.Job.Upload.Rows.{IsRow, is_row, split_rows-cover}
use mirror_backend.Job.Upload.Loop.{
  LoopState, Event, result, tick, idle, Turn, running, returned, finish, on_tick, on_event,
  write_batch, turn, initial, starts, turns, Reaches,
}
use mirror_backend.Job.Upload.Success.{turn-success}
use mirror_backend.Value.{Floats}

abbrev no_floats : Floats
no_floats = record {
  Float = Unit;
  print_float = λ x. "";
  print_map = λ m. "";
  parse_float = λ s. none;
}

abbrev city : Tag
city = record {
  id = some 3;
  name = some "city";
  tag_desc = none;
  enum = none;
  value_type = 2;
  status = 1;
  ext_info = none;
  creator_id = none;
  tenant_id = some 1;
  create_time = none;
  update_time = none;
}

abbrev rows : List (List String)
rows = ("ann" ∷ "Rome" ∷ []) ∷ ("bob" ∷ "Oslo" ∷ []) ∷ []

abbrev val : String → String → UdTagVal Unit
val id city = ud_tag_val no_floats (some 3) id (Tag.str city)

abbrev vals : List (UdTagVal Unit)
vals = val "ann" "Rome" ∷ val "bob" "Oslo" ∷ []

is_city : (id value : String) → IsRow no_floats city (some 3) (id ∷ value ∷ []) (val id value)
unfolding format_tag_value
is_city id value = is_row id value (Tag.str value) refl

split_rows-cover_example :
    (bs : List (List (UdTagVal Unit))) × (split_rows no_floats city (some 3) rows ≡ split_into bs)
    × (flatten bs ≡ vals)
    × All (IsBatch batch_size) bs
split_rows-cover_example =
    split_rows-cover no_floats city (some 3) rows vals
      (each_cons (is_city "ann" "Rome") (each_cons (is_city "bob" "Oslo") each_nil))

abbrev task : Task
task = record {
  id = some 8;
  tenant_id = some 1;
  resource_id = some 3;
  status = 2;
  task_type = 1;
  resource_type = 1;
  ext_info = some (record {
    file_id = some "f";
    ori_file_name = some "cities.csv";
    size = some 2;
    progress = some 0;
  });
  creator_id = none;
  create_time = some 0;
  update_time = some 0;
}

abbrev batches : List (List (UdTagVal Unit))
batches = vals ∷ []

abbrev at : Event String → Turn String
at event = record { event = event; answer = none }

abbrev counted : ℕ → ℕ → LoopState
counted count batch_num = record { task = task; count = count; batch_num = batch_num; sent = [] }

first_turn : turn 1 (at idle) (initial task) ≡ running (counted 0 1)
unfolding turn on_event write_batch
first_turn = refl

second_turn : turn 1 (at (result none)) (counted 0 1) ≡ running (counted 1 1)
unfolding turn on_event write_batch
second_turn = refl

third_turn : turn 1 (at (result none)) (counted 1 1) ≡ running (counted 2 1)
unfolding turn on_event write_batch
third_turn = refl

reached : Reaches String batches task (counted 2 1)
unfolding flatten
reached =
    turns (at (result none))
      (turns (at (result none)) (turns (at idle) starts tt first_turn) (omega arith) second_turn)
      (omega arith) third_turn

abbrev done : LoopState
done = record {
  task = record task {
    status = 3;
    ext_info = some (record {
      file_id = some "f";
      ori_file_name = some "cities.csv";
      size = some 2;
      progress = some 100;
    });
    update_time = some 9;
  };
  count = 2;
  batch_num = 1;
  sent = [];
}

last_turn : turn 1 (at (tick 9 none none)) (counted 2 1) ≡ returned none done
unfolding turn on_event on_tick finish write_batch update
last_turn = refl

turn-success_example :
    (done.task.status ≡ 3) × (2 ≡ length (flatten batches)) × (1 ≡ length batches)
unfolding flatten
turn-success_example =
    turn-success batches task (counted 2 1) done (at (tick 9 none none)) (omega arith, tt) refl
      (omega arith) reached last_turn
