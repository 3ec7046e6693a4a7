-- ===== src/Protocol/State/RoundTrip.antt =====
-- A part that is written and read again is the same: state.go.
use fast_task.Base.{
  String, Bool, Option, none, some, ◌≡◌, refl, str_eq, Bool-cases, eq_iff, inl, inr, sym, subst,
}
use fast_task.Protocol.Replay.{Json, Elements, nil, element, Fields, get_field}
use fast_task.Protocol.State.{
  Approval, Part, zero_part, text_part, image_part, reasoning_part, marshal_part, unmarshal_part,
  read_tool_call, read_approval,
}

-- The parts that the constructors build, and the later states of a tool call.
pub data IsBuilt : Part → Type 0 where
  texts : (content : String) → IsBuilt (text_part content)
  images : (reference : String) → IsBuilt (image_part reference)
  reasons : (id content : String) → IsBuilt (reasoning_part id content)
  calls :
      (tool_call_id tool_name : String) (args : Fields) (result : Json) (is_error : Bool)
      (approval : Option Approval)
      → IsBuilt (record zero_part {
        kind = "tool-call";
        tool_call_id = tool_call_id;
        tool_name = tool_name;
        args = some args;
        result = result;
        is_error = is_error;
        approval = approval;
      })

approved :
    (id name : String) (args : Fields) (result : Json) (is_error : Bool) (status : String)
    (options : Elements)
    → let p = record zero_part {
      kind = "tool-call";
      tool_call_id = id;
      tool_name = name;
      args = some args;
      result = result;
      is_error = is_error;
      approval = some (record { status = status; options = options });
    } in
      unmarshal_part (marshal_part p) ≡ some p
unfolding unmarshal_part marshal_part get_field read_tool_call read_approval
approved id name args result is_error status nil = refl
approved id name args result is_error status (element v vs) = refl

-- A part that a constructor builds, whatever its texts, its result and its approval, is read back as it was
-- written.
pub unmarshal_part-marshal_part : (p : Part) → IsBuilt p → unmarshal_part (marshal_part p) ≡ some p
unfolding unmarshal_part marshal_part get_field read_tool_call read_approval
unmarshal_part-marshal_part p (texts content) = refl
unmarshal_part-marshal_part p (images reference) = refl
unmarshal_part-marshal_part p (reasons id content) = elim (Bool-cases (str_eq id "")) [
  | inl e ↦
      subst
        (λ x.
          unmarshal_part (marshal_part (reasoning_part x content))
          ≡ some (reasoning_part x content))
        (sym ((eq_iff id "").0 e)) refl
  | inr e ↦ rw e
]
unmarshal_part-marshal_part p (calls id name args result is_error none) = refl
unmarshal_part-marshal_part p (calls id name args result is_error (some approval)) =
    approved id name args result is_error approval.status approval.options
