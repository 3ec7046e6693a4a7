-- ===== src/Protocol/State.antt =====
-- The thread state and its JSON: internal/agent/protocol/state.go. A nil slice is an empty list, since both
-- are written as []. Reading takes the keys as they are spelled. strconv.Itoa is a parameter.
pub mod Paths
pub mod RoundTrip
mod Examples
use fast_task.Base.{
  ℕ, String, Bool, true, false, Option, none, some, List, [], ◌∷◌, ℤ, if◌then◌else◌, str_eq,
}
use fast_task.Protocol.Replay.{
  Json, null, flag, number, text, array, object, Elements, nil, element, Fields, nothing, field,
  get_field,
}

pub record MessageStatus : Type 0 where
  pub kind : String
  pub reason : String

abbrev pub running_status : MessageStatus
running_status = record { kind = "running"; reason = "" }

abbrev pub complete_status : String → MessageStatus
complete_status reason = record { kind = "complete"; reason = reason }

abbrev pub incomplete_status : String → MessageStatus
incomplete_status reason = record { kind = "incomplete"; reason = reason }

abbrev pub requires_action_status : MessageStatus
requires_action_status = record { kind = "requires-action"; reason = "tool-calls" }

pub record Approval : Type 0 where
  pub status : String
  pub options : Elements

pub record Part : Type 0 where
  pub kind : String
  pub content : String
  pub id : String
  pub image : String
  pub tool_call_id : String
  pub tool_name : String
  pub args : Option Fields
  pub result : Json
  pub is_error : Bool
  pub approval : Option Approval

-- Go's zero value of the row.
abbrev pub zero_part : Part
zero_part = record {
  kind = "";
  content = "";
  id = "";
  image = "";
  tool_call_id = "";
  tool_name = "";
  args = none;
  result = null;
  is_error = false;
  approval = none;
}

abbrev pub text_part : String → Part
text_part content = record zero_part { kind = "text"; content = content }

abbrev pub image_part : String → Part
image_part reference = record zero_part { kind = "image"; image = reference }

abbrev pub reasoning_part : String → String → Part
reasoning_part id content = record zero_part { kind = "reasoning"; id = id; content = content }

abbrev pub or_empty : Option Fields → Fields
or_empty none = nothing
or_empty (some fields) = fields

abbrev pub tool_call_part : String → String → Option Fields → Part
tool_call_part tool_call_id tool_name args = record zero_part {
  kind = "tool-call";
  tool_call_id = tool_call_id;
  tool_name = tool_name;
  args = some (or_empty args);
}

-- A text that `omitempty` leaves out when it is empty.
abbrev pub text_unless_empty : String → String → Fields → Fields
text_unless_empty key value rest = if str_eq value "" then rest else field key (text value) rest

abbrev pub list_unless_empty : String → Elements → Fields → Fields
list_unless_empty key nil rest = rest
list_unless_empty key (element v vs) rest = field key (array (element v vs)) rest

abbrev pub approval_unless_nil : Option Approval → Fields
approval_unless_nil none = nothing
approval_unless_nil (some approval) =
    field "approval"
      (object (
        field "status" (text approval.status)
          (list_unless_empty "options" approval.options nothing)))
      nothing

-- The fields after the type, by the type.
unfoldable pub part_fields : Part → Fields
part_fields p =
    if str_eq p.kind "text"
    then field "text" (text p.content) nothing
    else if str_eq p.kind "reasoning"
    then text_unless_empty "id" p.id (field "text" (text p.content) nothing)
    else if str_eq p.kind "image"
    then field "image" (text p.image) nothing
    else if str_eq p.kind "tool-call"
    then field "toolCallId" (text p.tool_call_id) (
        field "toolName" (text p.tool_name) (
          field "args" (object (or_empty p.args)) (
            field "result" p.result
              (field "isError" (flag p.is_error) (approval_unless_nil p.approval)))))
    else nothing

unfoldable pub marshal_part : Part → Json
unfolding part_fields
marshal_part p = object (field "type" (text p.kind) (part_fields p))

infixl 5 ◌>>=◌
abbrev ◌>>=◌ : {A B : Type 0} → Option A → (A → Option B) → Option B
none >>= rest = none
some value >>= rest = rest value

-- A member that is missing or null leaves the zero value; one of another type is an error.
abbrev pub read_text : Json → Option String
read_text null = some ""
read_text (text s) = some s
read_text json = none

abbrev pub read_flag : Json → Option Bool
read_flag null = some false
read_flag (flag b) = some b
read_flag json = none

abbrev pub read_object : Json → Option (Option Fields)
read_object null = some none
read_object (object fields) = some (some fields)
read_object json = none

abbrev pub read_list : Json → Option Elements
read_list null = some nil
read_list (array items) = some items
read_list json = none

unfoldable pub read_approval : Json → Option (Option Approval)
unfolding get_field
read_approval null = some none
read_approval (object fields) = do
  status ← read_text (get_field "status" fields)
  options ← read_list (get_field "options" fields)
  some (some (record { status = status; options = options }))
read_approval json = none

unfoldable pub read_tool_call : Fields → Option Part
unfolding get_field read_approval
read_tool_call fields = do
  tool_call_id ← read_text (get_field "toolCallId" fields)
  tool_name ← read_text (get_field "toolName" fields)
  args ← read_object (get_field "args" fields)
  is_error ← read_flag (get_field "isError" fields)
  approval ← read_approval (get_field "approval" fields)
  some (record zero_part {
    kind = "tool-call";
    tool_call_id = tool_call_id;
    tool_name = tool_name;
    args = args;
    result = get_field "result" fields;
    is_error = is_error;
    approval = approval;
  })

abbrev pub read_reasoning : Fields → Option Part
read_reasoning fields = do
  id ← read_text (get_field "id" fields)
  content ← read_text (get_field "text" fields)
  some (reasoning_part id content)

abbrev pub read_image : Fields → Option Part
read_image fields = do image ← read_text (get_field "image" fields); some (image_part image)

abbrev pub read_other : String → Fields → Option Part
read_other kind fields = do
  content ← read_text (get_field "text" fields)
  some (record zero_part { kind = kind; content = content })

abbrev pub read_kind : String → Fields → Option Part
read_kind kind fields =
    if str_eq kind "tool-call"
    then read_tool_call fields
    else if str_eq kind "reasoning"
    then read_reasoning fields
    else if str_eq kind "image"
    then read_image fields
    else read_other kind fields

-- UnmarshalJSON into a zero part.
unfoldable pub unmarshal_part : Json → Option Part
unfolding get_field read_tool_call
unmarshal_part json = do
  members ← read_object json
  let fields = or_empty members
  kind ← read_text (get_field "type" fields)
  read_kind kind fields

pub record Message : Type 0 where
  pub id : String
  pub role : String
  pub parts : List Part
  pub created_at : String
  pub status : MessageStatus

abbrev pub marshal_status : MessageStatus → Json
marshal_status status =
    object (field "type" (text status.kind) (text_unless_empty "reason" status.reason nothing))

abbrev pub elements : {A : Type 0} → (A → Json) → List A → Elements
elements f [] = nil
elements f (x ∷ xs) = element (f x) (elements f xs)

unfoldable pub marshal_message : Message → Json
unfolding marshal_part
marshal_message m = object (
    field "id" (text m.id) (
      field "role" (text m.role) (
        field "parts" (array (elements marshal_part m.parts)) (
          field "createdAt" (text m.created_at)
            (field "status" (marshal_status m.status) nothing)))))

pub record PendingProposal : Type 0 where
  pub id : String
  pub goal_id : String
  pub base_revision : ℤ
  pub summary : String

pub record FastTaskState : Type 0 where
  pub thread_id : String
  pub active_goal_id : String
  pub harness_mode : String
  pub run_id : String
  pub pending_proposals : List PendingProposal

pub record State : Type 0 where
  pub messages : List Message
  pub is_running : Bool
  pub fast_task : FastTaskState

abbrev pub new_state : State
new_state = record {
  messages = [];
  is_running = false;
  fast_task = record {
    thread_id = "";
    active_goal_id = "";
    harness_mode = "";
    run_id = "";
    pending_proposals = [];
  };
}

-- `digits` writes an integer.
module _ (digits : ℤ → String) where
  abbrev pub marshal_proposal : PendingProposal → Json
  marshal_proposal p = object (
      field "id" (text p.id) (
        field "goalId" (text p.goal_id) (
          field "baseRevision" (number (digits p.base_revision))
            (field "summary" (text p.summary) nothing))))

  abbrev pub marshal_fast_task : FastTaskState → Json
  marshal_fast_task s = object (
      text_unless_empty "threadId" s.thread_id (
        text_unless_empty "activeGoalId" s.active_goal_id (
          text_unless_empty "harnessMode" s.harness_mode (
            text_unless_empty "runId" s.run_id (
              field "pendingProposals" (array (elements marshal_proposal s.pending_proposals))
                nothing)))))

  unfoldable pub marshal_state : State → Json
  unfolding marshal_message
  marshal_state s = object (
      field "messages" (array (elements marshal_message s.messages)) (
        field "isRunning" (flag s.is_running)
          (field "fasttask" (marshal_fast_task s.fast_task) nothing)))

-- The paths of operations; `itoa` is strconv.Itoa.
module _ (itoa : ℕ → String) where
  abbrev pub message_path : ℕ → List String
  message_path n = "messages" ∷ itoa n ∷ []

  abbrev pub message_parts_path : ℕ → List String
  message_parts_path n = "messages" ∷ itoa n ∷ "parts" ∷ []

  abbrev pub part_path : ℕ → ℕ → List String
  part_path n idx = "messages" ∷ itoa n ∷ "parts" ∷ itoa idx ∷ []

  abbrev pub part_text_path : ℕ → ℕ → List String
  part_text_path n idx = "messages" ∷ itoa n ∷ "parts" ∷ itoa idx ∷ "text" ∷ []

  abbrev pub message_status_path : ℕ → List String
  message_status_path n = "messages" ∷ itoa n ∷ "status" ∷ []

abbrev pub is_running_path : List String
is_running_path = "isRunning" ∷ []

abbrev pub fast_task_path : List String
fast_task_path = "fasttask" ∷ []

abbrev pub fast_task_thread_id_path : List String
fast_task_thread_id_path = "fasttask" ∷ "threadId" ∷ []

abbrev pub fast_task_run_id_path : List String
fast_task_run_id_path = "fasttask" ∷ "runId" ∷ []

abbrev pub fast_task_harness_mode_path : List String
fast_task_harness_mode_path = "fasttask" ∷ "harnessMode" ∷ []
