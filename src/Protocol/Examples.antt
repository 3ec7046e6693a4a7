-- ===== src/Protocol/Examples.antt =====
-- Tests of the protocol on concrete chunks, and its theorem at one of them.
use fast_task.Base.{String, Option, some, [], ◌∷◌, ◌≡◌, refl, pos, negsuc}
use fast_task.Protocol.Chunk.{
  Chunk, missing_finish_reason, negative_segment, update_state, step_finish, part_finish, validate,
  write_chunk, write_done,
}
use fast_task.Protocol.Valid.{IsWellFormed, write_chunk-IsWellFormed}

abbrev encode : Chunk String String → Option String
encode c = some "{}"

abbrev greeting : Chunk String String
unfolding update_state
greeting =
    update_state (record { kind = "set"; path = "messages" ∷ "0" ∷ []; value = "hello" } ∷ [])

sent : write_chunk encode greeting ≡ some "data: {}\n\n"
unfolding write_chunk update_state
sent = refl

write_chunk-IsWellFormed_example : IsWellFormed greeting
write_chunk-IsWellFormed_example = write_chunk-IsWellFormed encode greeting "data: {}\n\n" sent

ends : write_done ≡ "data: [DONE]\n\n"
unfolding write_done
ends = refl

abbrev silent : Chunk String String
unfolding step_finish
silent = step_finish ""

refuses_silent : validate silent ≡ some missing_finish_reason
unfolding validate step_finish
refuses_silent = refl

abbrev misplaced : Chunk String String
unfolding part_finish
misplaced = part_finish (pos 1 ∷ negsuc 0 ∷ [])

refuses_misplaced : validate misplaced ≡ some negative_segment
unfolding validate part_finish
refuses_misplaced = refl
