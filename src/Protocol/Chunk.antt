-- ===== src/Protocol/Chunk.antt =====
-- internal/agent/protocol/chunk.go, and the frames of stream.go. A nil slice or pointer is `none`. `Part`
-- and `Value` stand for the message parts and for any JSON value.
use Prim.Native.String.{◌++◌ as ◌<>◌}
use fast_task.Base.{
  String, Bool, false, not, ◌&&◌, ◌||◌, Option, none, some, List, [], ◌∷◌, ℤ, pos, ltb_ℤ,
  if◌then◌else◌, str_eq, any, is_none, split,
}

abbrev pub path_required : List String
path_required = "text-delta" ∷ "part-finish" ∷ "tool-call-args-text-finish" ∷ "result" ∷ []

abbrev pub valid_chunk_types : List String
valid_chunk_types =
    "update-state" ∷ "part-start" ∷ "annotations" ∷ "data" ∷ "step-start" ∷ "step-finish"
    ∷ "message-finish" ∷ "error" ∷ "text-delta" ∷ "part-finish" ∷ "tool-call-args-text-finish"
    ∷ "result" ∷ []

abbrev pub unsafe_path_segments : List String
unsafe_path_segments = "__proto__" ∷ "constructor" ∷ "prototype" ∷ []

abbrev pub is_member : String → List String → Bool
is_member value set = any (λ s. str_eq s value) set

-- The errors of this file, one for each message.
pub data ProtocolError : Type 0 where
  unsafe_segment unknown_type missing_path negative_segment : ProtocolError
  missing_operations unknown_operation missing_operation_path : ProtocolError
  missing_part missing_finish_reason : ProtocolError

pub record Operation (Value : Type 0) : Type 0 where
  pub kind : String
  pub path : List String
  pub value : Value

pub record Chunk (Part Value : Type 0) : Type 0 where
  pub kind : String
  pub path : Option (List ℤ)
  pub operations : Option (List (Operation Value))
  pub part : Option Part
  pub annotations : Option (List Value)
  pub payload : Option (List Value)
  pub finish_reason : String
  pub text_delta : String
  pub is_error : Option Bool

unfoldable pub validate_path : List String → Option ProtocolError
validate_path [] = none
validate_path (segment ∷ path) =
    if is_member segment unsafe_path_segments then some unsafe_segment else validate_path path

-- Called without an operation, the source's variadic argument is nil.
abbrev pub slice : {A : Type 0} → List A → Option (List A)
slice [] = none
slice (x ∷ xs) = some (x ∷ xs)

-- The loop over the operations.
unfoldable pub validate_operations :
    {Value : Type 0} → List (Operation Value) → Option ProtocolError
validate_operations [] = none
validate_operations (op ∷ ops) =
    if not (str_eq op.kind "set") && not (str_eq op.kind "append-text")
    then some unknown_operation
    else elim op.path [
      | [] ↦ some missing_operation_path
      | segment ∷ path ↦ validate_operations ops
    ]

abbrev pub is_negative_path : Option (List ℤ) → Bool
is_negative_path none = false
is_negative_path (some path) = any (λ segment. ltb_ℤ segment (pos 0)) path

module _ {Part Value : Type 0} where
  -- A chunk with only its type set.
  abbrev pub bare : String → Chunk Part Value
  bare kind = record {
    kind = kind;
    path = none;
    operations = none;
    part = none;
    annotations = none;
    payload = none;
    finish_reason = "";
    text_delta = "";
    is_error = none;
  }

  unfoldable pub update_state : List (Operation Value) → Chunk Part Value
  update_state ops = record (bare "update-state") { operations = slice ops }

  unfoldable pub step_start : Chunk Part Value
  step_start = bare "step-start"

  unfoldable pub step_finish : String → Chunk Part Value
  step_finish reason = record (bare "step-finish") { finish_reason = reason }

  unfoldable pub message_finish : String → Chunk Part Value
  message_finish reason = record (bare "message-finish") { finish_reason = reason }

  unfoldable pub error_chunk : Chunk Part Value
  error_chunk = bare "error"

  unfoldable pub part_start : Part → Chunk Part Value
  part_start part = record (bare "part-start") { part = some part }

  unfoldable pub annotations_chunk : Option (List Value) → Chunk Part Value
  annotations_chunk values = record (bare "annotations") { annotations = values }

  unfoldable pub data_chunk : Option (List Value) → Chunk Part Value
  data_chunk values = record (bare "data") { payload = values }

  unfoldable pub text_delta_chunk : List ℤ → String → Chunk Part Value
  text_delta_chunk path delta = record (bare "text-delta") { path = some path; text_delta = delta }

  unfoldable pub part_finish : List ℤ → Chunk Part Value
  part_finish path = record (bare "part-finish") { path = some path }

  unfoldable pub tool_call_args_text_finish : List ℤ → Chunk Part Value
  tool_call_args_text_finish path = record (bare "tool-call-args-text-finish") { path = some path }

  unfoldable pub result_chunk : List ℤ → Bool → Chunk Part Value
  result_chunk path is_error = record (bare "result") { path = some path; is_error = some is_error }

  -- The switch on the type.
  unfoldable pub validate_fields : Chunk Part Value → Option ProtocolError
  unfolding validate_operations
  validate_fields c =
      if str_eq c.kind "update-state"
      then elim c.operations [ none ↦ some missing_operations | some ops ↦ validate_operations ops ]
      else if str_eq c.kind "part-start"
      then (if is_none c.part then some missing_part else none)
      else if str_eq c.kind "step-finish" || str_eq c.kind "message-finish"
      then (if str_eq c.finish_reason "" then some missing_finish_reason else none)
      else none

  unfoldable pub validate : Chunk Part Value → Option ProtocolError
  unfolding validate_fields
  validate c =
      if not (is_member c.kind valid_chunk_types)
      then some unknown_type
      else if is_member c.kind path_required && is_none c.path
      then some missing_path
      else if is_negative_path c.path
      then some negative_segment
      else validate_fields c

module _ {Value : Type 0} where
  -- Set and AppendText.
  unfoldable pub set : List String → Value → Option (Operation Value)
  unfolding validate_path
  set path value = elim (validate_path path) [
    | some e ↦ none
    | none ↦ some (record { kind = "set"; path = path; value = value })
  ]

  unfoldable pub append_text : List String → Value → Option (Operation Value)
  unfolding validate_path
  append_text path text = elim (validate_path path) [
    | some e ↦ none
    | none ↦ some (record { kind = "append-text"; path = path; value = text })
  ]

-- writeData: the lines of a frame, each after "data: ", and an empty line.
abbrev pub data_lines : List String → String
data_lines [] = "\n"
data_lines (line ∷ lines) = "data: " <> line <> "\n" <> data_lines lines

unfoldable pub write_data : String → String
unfolding split
write_data payload = data_lines (split b'\n' payload)

abbrev pub done : String
done = "[DONE]"

unfoldable pub write_done : String
unfolding write_data
write_done = write_data done

-- What WriteChunk sends: nothing for an invalid chunk. `encode` is the JSON encoder.
unfoldable pub write_chunk :
    {Part Value : Type 0} → (Chunk Part Value → Option String) → Chunk Part Value → Option String
unfolding validate write_data
write_chunk encode c = elim (validate c) [
  | some e ↦ none
  | none ↦ elim (encode c) [ none ↦ none | some text ↦ some (write_data text) ]
]
