-- ===== src/Protocol/State/Examples.antt =====
-- Tests of replay and of the state's JSON, with numbers written as a row of zeros.
use Prim.Native.Char.{code}
use fast_task.Base.{
  ℕ, zero, suc, String, true, false, Option, some, none, [], ◌∷◌, ℤ, pos, ◌≡◌, refl, arith, ◌==◌,
  if◌then◌else◌, map, Bool-cases, inl, inr, subst, str_eq, eq_iff,
}
use fast_task.Protocol.Chunk.{
  Operation, Chunk, validate_path, is_member, unsafe_path_segments, validate,
}
use fast_task.Protocol.Replay.{
  Json, null, text, array, object, nil, element, nothing, field, applied, apply, apply_all,
  array_index, fold_event, get_field, put_field, nth_element,
}
use fast_task.Protocol.Replay.Paths.{look, apply-look, Apart, parting, apply-Apart}
use fast_task.Protocol.Replay.Streams.{append, joined}
use fast_task.Protocol.Replay.Kept.{IsKept, FieldsKept, fold_event-IsKept}
use fast_task.Protocol.State.{
  tool_call_part, message_path, part_text_path, marshal_part, unmarshal_part,
}
use fast_task.Protocol.State.RoundTrip.{calls, unmarshal_part-marshal_part}
use fast_task.Protocol.State.Paths.{append_all-part_text_path}

-- A row of n zeros is n.
abbrev zeros : String → Option ℕ
zeros String.[] = some 0
zeros (String.◌∷◌ c s) =
    let rest = zeros s in
    if code c == b'0' then elim rest [ none ↦ none | some n ↦ some (suc n) ] else none

abbrev atoi : String → Option ℤ
atoi s = elim (zeros s) [ none ↦ none | some zero ↦ none | some (suc n) ↦ some (pos n) ]

abbrev row_of_zeros : ℕ → String
row_of_zeros zero = ""
row_of_zeros (suc n) = String.◌∷◌ "0" (row_of_zeros n)

abbrev itoa : ℕ → String
itoa n = row_of_zeros (suc n)

zeros_row : (n : ℕ) → zeros (row_of_zeros n) ≡ some n
zeros_row zero = refl
zeros_row (suc n) = rw (zeros_row n)

atoi-itoa : (n : ℕ) → atoi (itoa n) ≡ some (pos n)
atoi-itoa n = rw (zeros_row n)

atoi_unsafe : (s : String) → is_member s unsafe_path_segments ≡ true → atoi s ≡ none
atoi_unsafe s h = elim (Bool-cases (str_eq "__proto__" s)) [
  | inl e ↦ subst (λ x. atoi x ≡ none) ((eq_iff "__proto__" s).0 e) refl
  | inr e ↦ elim (Bool-cases (str_eq "constructor" s)) [
    | inl f ↦ subst (λ x. atoi x ≡ none) ((eq_iff "constructor" s).0 f) refl
    | inr f ↦ elim (Bool-cases (str_eq "prototype" s)) [
      | inl g ↦ subst (λ x. atoi x ≡ none) ((eq_iff "prototype" s).0 g) refl
      | inr g ↦ absurd (ground (arith, h, e, f, g))
    ]
  ]
]

abbrev message : String → Json
message content =
    object
      (field "parts" (array (element (object (field "text" (text content) nothing)) nil)) nothing)

abbrev thread : Json
thread =
    object (field "messages" (array (element (message "") (element (message "hi") nil))) nothing)

append_all-part_text_path_example :
    (root' : Json) × (apply_all atoi
        (map (append (part_text_path itoa 0 0)) ("he" ∷ "llo" ∷ []))
        thread
      ≡ applied root')
    × (look atoi (part_text_path itoa 0 0) root' ≡ text (joined atoi "" ("he" ∷ "llo" ∷ [])))
    × (look atoi (message_path itoa 1) root' ≡ look atoi (message_path itoa 1) thread)
unfolding look array_index get_field nth_element
append_all-part_text_path_example =
    append_all-part_text_path atoi itoa atoi-itoa atoi_unsafe 0 0 1 ("he" ∷ "llo" ∷ []) thread ""
      (λ e. cc) refl

abbrev rename : Operation Json
rename = record { kind = "set"; path = "title" ∷ []; value = text "Thesis" }

renames :
    apply atoi ("title" ∷ []) rename thread
    ≡ applied (
        object (
          field "messages"
            (array (element (message "") (element (message "hi") nil)))
            (field "title" (text "Thesis") nothing)))
unfolding apply validate_path put_field
renames = refl

apply-look_example :
    apply atoi [] rename (look atoi ("title" ∷ []) thread)
    ≡ applied (
        look atoi ("title" ∷ []) (
          object (
            field "messages"
              (array (element (message "") (element (message "hi") nil)))
              (field "title" (text "Thesis") nothing))))
apply-look_example = apply-look atoi ("title" ∷ []) rename thread _ renames

title-Apart : Apart atoi ("title" ∷ []) ("messages" ∷ [])
unfolding array_index
title-Apart = parting ((λ e. cc), λ i e f. cc)

apply-Apart_example :
    look atoi ("messages" ∷ []) (
      object (
        field "messages"
          (array (element (message "") (element (message "hi") nil)))
          (field "title" (text "Thesis") nothing)))
    ≡ look atoi ("messages" ∷ []) thread
apply-Apart_example =
    apply-Apart atoi ("title" ∷ []) ("messages" ∷ []) rename thread _ title-Apart renames

abbrev event : Chunk Json Json
event = record {
  kind = "update-state";
  path = none;
  operations = some (rename ∷ []);
  part = none;
  annotations = none;
  payload = none;
  finish_reason = "";
  text_delta = "";
  is_error = none;
}

folds :
    fold_event atoi (object nothing) event
    ≡ applied (object (field "title" (text "Thesis") nothing))
unfolding fold_event apply validate_path put_field validate
folds = refl

fold_event-IsKept_example : IsKept (object (field "title" (text "Thesis") nothing))
unfolding IsKept FieldsKept
fold_event-IsKept_example = fold_event-IsKept atoi event (object nothing) _ (tt, tt) tt folds

unmarshal_part-marshal_part_example :
    unmarshal_part (marshal_part (tool_call_part "c1" "propose" none))
    ≡ some (tool_call_part "c1" "propose" none)
unmarshal_part-marshal_part_example =
    unmarshal_part-marshal_part (tool_call_part "c1" "propose" none)
      (calls "c1" "propose" nothing null false none)
