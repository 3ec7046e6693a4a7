-- ===== src/Protocol/Replay.antt =====
-- Replay of protocol events on a JSON state: internal/agent/protocol/replay.go. A map of Go is a list of
-- fields, of which the first with a key counts. strconv.Atoi is a parameter.
pub mod Kept
pub mod Paths
pub mod Streams
use Prim.Native.String.{◌++◌ as ◌<>◌}
use fast_task.Base.{
  ℕ, zero, suc, String, Bool, true, false, Option, none, some, List, [], ◌∷◌, ◌||◌, ℤ, pos, negsuc,
  if◌then◌else◌, str_eq, leb, is_none,
}
use fast_task.Protocol.Chunk.{Operation, Chunk, ProtocolError, validate_path, validate}

-- What encoding/json decodes into an empty interface; a number keeps its text.
mutual
  pub data Json : Type 0 where
    null : Json
    flag : Bool → Json
    number : String → Json
    text : String → Json
    array : Elements → Json
    object : Fields → Json

  pub data Elements : Type 0 where
    nil : Elements
    element : Json → Elements → Elements

  pub data Fields : Type 0 where
    nothing : Fields
    field : String → Json → Fields → Fields

pub data ReplayError : Type 0 where
  not_text bad_index bad_path undecoded : ReplayError
  refused : ProtocolError → ReplayError

pub data Replayed (A : Type 0) : Type 0 where
  applied : A → Replayed A
  rejected : ReplayError → Replayed A

abbrev pub then_replay : {A B : Type 0} → Replayed A → (A → Replayed B) → Replayed B
then_replay (rejected e) rest = rejected e
then_replay (applied a) rest = rest a

-- A missing key or index reads as null.
unfoldable pub get_field : String → Fields → Json
get_field key nothing = null
get_field key (field k v rest) = if str_eq k key then v else get_field key rest

unfoldable pub put_field : String → Json → Fields → Fields
put_field key value nothing = field key value nothing
put_field key value (field k v rest) =
    let others = put_field key value rest in
    if str_eq k key then field k value rest else field k v others

unfoldable pub nth_element : ℕ → Elements → Json
nth_element i nil = null
nth_element zero (element v rest) = v
nth_element (suc i) (element v rest) = nth_element i rest

-- The array is extended with nulls up to the index.
unfoldable pub put_element : ℕ → Json → Elements → Elements
put_element zero value nil = element value nil
put_element (suc i) value nil = element null (put_element i value nil)
put_element zero value (element v rest) = element value rest
put_element (suc i) value (element v rest) = element v (put_element i value rest)

abbrev pub max_index : ℕ
max_index = 100000

unfoldable pub append_text_at : Json → Json → Replayed Json
append_text_at (text a) (text b) = applied (text (a <> b))
append_text_at node value = rejected not_text

abbrev pub initial_snapshot : String
initial_snapshot = "{\"messages\":[],\"isRunning\":false,\"fasttask\":{}}"

abbrev pub operations_of : {Part : Type 0} → Chunk Part Json → List (Operation Json)
operations_of chunk = elim chunk.operations [ none ↦ [] | some ops ↦ ops ]

module _ (atoi : String → Option ℤ) where
  unfoldable pub array_index : String → Option ℕ
  array_index segment = elim (atoi segment) [
    | none ↦ none
    | some (negsuc n) ↦ none
    | some (pos n) ↦ if leb n max_index then some n else none
  ]

  -- A null on the way becomes the container that the segment asks for.
  unfoldable pub opened : String → Json → Json
  opened segment null = if is_none (atoi segment) then object nothing else array nil
  opened segment node = node

  -- The switch on the kind of node; `next` goes on below it.
  unfoldable pub within : (Json → Replayed Json) → String → Json → Replayed Json
  unfolding array_index
  within next segment (object fields) =
      then_replay (next (get_field segment fields))
        (λ v. applied (object (put_field segment v fields)))
  within next segment (array items) = elim (array_index segment) [
    | none ↦ rejected bad_index
    | some i ↦
        then_replay (next (nth_element i items)) (λ v. applied (array (put_element i v items)))
  ]
  within next segment node = rejected bad_path

  unfoldable pub apply : List String → Operation Json → Json → Replayed Json
  unfolding within opened append_text_at
  apply [] op node = if str_eq op.kind "set" then applied op.value else append_text_at node op.value
  apply (segment ∷ path) op node = elim (validate_path (segment ∷ path)) [
    | some e ↦ rejected (refused e)
    | none ↦ within (apply path op) segment (opened segment node)
  ]

  -- The loop over the operations of an event.
  unfoldable pub apply_all : List (Operation Json) → Json → Replayed Json
  unfolding apply
  apply_all [] root = applied root
  apply_all (op ∷ ops) root = then_replay (apply op.path op root) (apply_all ops)

  -- One event on a decoded state.
  unfoldable pub fold_event : {Part : Type 0} → Json → Chunk Part Json → Replayed Json
  unfolding apply_all
  fold_event root chunk = elim (validate chunk) [
    | some e ↦ rejected (refused e)
    | none ↦
        if str_eq chunk.kind "update-state"
        then apply_all (operations_of chunk) root
        else applied root
  ]

  -- The decoders and the encoder are encoding/json.
  module _ {Part : Type 0} (decode_state : String → Option Json)
      (decode_chunk : String → Option (Chunk Part Json)) (encode : Json → String) where
    unfoldable pub apply_state_json : String → String → Replayed String
    unfolding fold_event
    apply_state_json snapshot event =
        let start =
          if str_eq snapshot "" || str_eq snapshot "{}" then initial_snapshot else snapshot in
        elim (decode_state start) [
          | none ↦ rejected undecoded
          | some root ↦ elim (decode_chunk event) [
            | none ↦ rejected undecoded
            | some chunk ↦ then_replay (fold_event root chunk) (λ final. applied (encode final))
          ]
        ]
