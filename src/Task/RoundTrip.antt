-- ===== src/Task/RoundTrip.antt =====
-- A task read back from its hash, or from any hash that holds the task's fields.
use gigaevo_platform.Prelude.{
  String, ◌≡◌, ◌≢◌, refl, false, Option, none, some, arith, eq_iff, get_or, All,
}
use gigaevo_platform.Prelude.Eq.{string_eq}
use gigaevo_platform.Formats.{Formats}
use gigaevo_platform.Task.{
  TaskStatus, queued, TaskType, clone_repo, Task, status_value, parse_status, type_value,
  parse_type, or_none, task_to_hash, iso_or_empty, dumps_or_empty, parse_datetime, loaded_object,
  loaded_optional, read_fields,
}

pub parse_status-status_value : (s : TaskStatus) → parse_status (status_value s) ≡ some s
unfolding parse_status
parse_status-status_value queued = refl
parse_status-status_value _ = refl

pub parse_type-type_value : (t : TaskType) → parse_type (type_value t) ≡ some t
unfolding parse_type
parse_type-type_value clone_repo = refl
parse_type-type_value _ = refl

or_none_stored : (o : Option String) → or_none (some (get_or o "")) ≡ or_none o
or_none_stored none = refl
or_none_stored (some s) = refl

or_none_nonempty : (s : String) → s ≢ "" → or_none (some s) ≡ some s
or_none_nonempty s h = ground (arith, eq_iff s "")

module _ ⦃F : Formats⦄ where
  open F use {Json, Time, is_naive, dumps, loads, isoformat, fromisoformat}

  -- Every time that is set carries a time zone.
  abbrev pub IsAware : Option Time → Type 0
  IsAware none = Unit
  IsAware (some t) = is_naive t ≡ false

  pub record HasAwareTimes (t : Task) : Type 0 where
    pub created : is_naive t.created_at ≡ false
    pub started : IsAware t.started_at
    pub completed : IsAware t.completed_at

  -- The task as it reads back: an empty text and no text are stored alike.
  abbrev pub stored : Task → Task
  stored t = record t { error_message = or_none t.error_message; worker_id = or_none t.worker_id }

  parse_datetime-isoformat :
      (o : Option Time) → IsAware o → parse_datetime (some (iso_or_empty o)) ≡ some o
  unfolding parse_datetime
  parse_datetime-isoformat none h = refl
  parse_datetime-isoformat (some t) h =
      ground (arith, eq_iff (isoformat t) "", F.isoformat-ne-empty t, F.fromisoformat-isoformat t)

  parameters-dumps :
      (j : Json) → loaded_object (loads (get_or (or_none (some (dumps j))) "{}")) ≡ some j
  parameters-dumps j = rw (or_none_nonempty (dumps j) (F.dumps-ne-empty j)) (rw (F.loads-dumps j))

  result-dumps :
      (o : Option Json)
      → loaded_optional (loads (get_or (or_none (some (dumps_or_empty o))) "null")) ≡ some o
  result-dumps none = rw F.loads_null
  result-dumps (some j) =
      rw (or_none_nonempty (dumps j) (F.dumps-ne-empty j)) (rw (F.loads-dumps j))

  -- A hash whose fields are read by `field` holds every entry that the task is stored by.
  abbrev pub Holds : Task → (String → Option String) → Type 0
  Holds t field = All (λ e. field e.0 ≡ some e.1) (task_to_hash t)

  pub read_fields-Holds :
      (now : Time) (t : Task) (field : String → Option String)
      → HasAwareTimes t
      → Holds t field
      → read_fields now field ≡ some (stored t)
  unfolding read_fields task_to_hash
  read_fields-Holds now t field aware h =
      rw
        (
          h.0,
          F.parse_uuid-str_uuid t.id,
          h.1.0,
          h.1.1.0,
          parse_type-type_value t.task_type,
          h.1.1.1.0,
          parse_status-status_value t.status,
          h.1.1.1.1.0,
          parameters-dumps t.parameters,
          h.1.1.1.1.1.0,
          result-dumps t.result,
          h.1.1.1.1.1.1.1.0,
          parse_datetime-isoformat (some t.created_at) aware.created,
          h.1.1.1.1.1.1.1.1.0,
          parse_datetime-isoformat t.started_at aware.started,
          h.1.1.1.1.1.1.1.1.1.0,
          parse_datetime-isoformat t.completed_at aware.completed,
          h.1.1.1.1.1.1.1.1.1.1.1.0,
          F.parse_float-str_float t.progress,
          h.1.1.1.1.1.1.0,
          h.1.1.1.1.1.1.1.1.1.1.0,
          or_none_stored t.error_message,
          or_none_stored t.worker_id,
        )
        refl
