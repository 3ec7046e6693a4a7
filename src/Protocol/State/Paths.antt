-- ===== src/Protocol/State/Paths.antt =====
-- The paths of state.go keep messages and parts apart when events are replayed.
use fast_task.Base.{
  ℕ, String, Option, some, none, List, ℤ, pos, ◌≡◌, ◌≢◌, sym, ◌∙◌, ap, arith, map, Bool-cases, true,
  false, inl, inr,
}
use fast_task.Protocol.Chunk.{validate_path, is_member, unsafe_path_segments}
use fast_task.Protocol.Replay.{Json, text, applied, apply_all, array_index}
use fast_task.Protocol.Replay.Paths.{look, parting, further, IsOther}
use fast_task.Protocol.Replay.Streams.{append, joined, append_all-look, append_all-Apart}
use fast_task.Protocol.State.{message_path, part_text_path}

-- What the code relies on of strconv: Atoi reads back what Itoa writes, and refuses a word.
module _ (atoi : String → Option ℤ) (itoa : ℕ → String)
    (atoi-itoa : (n : ℕ) → atoi (itoa n) ≡ some (pos n))
    (atoi-unsafe : (s : String) → is_member s unsafe_path_segments ≡ true → atoi s ≡ none) where
  itoa-IsOther : (n m : ℕ) → n ≢ m → IsOther atoi (itoa n) (itoa m)
  unfolding array_index
  itoa-IsOther n m d = (
    λ e. d (same n m (sym (atoi-itoa n) ∙ (ap atoi e ∙ atoi-itoa m))),
    λ i f g. d (index n i f ∙ sym (index m i g)),
  )
    where
      same : (n m : ℕ) → some (pos n) ≡ some (pos m) → n ≡ m
      same n m h = cc

      index : (n i : ℕ) → array_index atoi (itoa n) ≡ some i → n ≡ i
      index n i h = let h' = rw (array_index, atoi-itoa n) at h in ground arith

  itoa_safe : (n : ℕ) → is_member (itoa n) unsafe_path_segments ≡ false
  itoa_safe n = elim (Bool-cases (is_member (itoa n) unsafe_path_segments)) [
    | inr e ↦ e
    | inl e ↦ (let f = sym (atoi-itoa n) ∙ atoi-unsafe (itoa n) e in cc)
  ]

  part_text_path_safe : (n idx : ℕ) → validate_path (part_text_path itoa n idx) ≡ none
  unfolding validate_path
  part_text_path_safe n idx = rw (itoa_safe n, itoa_safe idx)

  -- Text deltas for a part all arrive, in their order, and no other message changes, if a text stands at the
  -- part to begin with.
  pub append_all-part_text_path :
      (n idx m : ℕ) (deltas : List String) (root : Json) (sofar : String)
      → n ≢ m
      → look atoi (part_text_path itoa n idx) root ≡ text sofar
      → (root' : Json) × (apply_all atoi (map (append (part_text_path itoa n idx)) deltas) root
          ≡ applied root')
        × (look atoi (part_text_path itoa n idx) root' ≡ text (joined atoi sofar deltas))
        × (look atoi (message_path itoa m) root' ≡ look atoi (message_path itoa m) root)
  append_all-part_text_path n idx m deltas root sofar d h =
      let path = part_text_path itoa n idx in
      let (final, e, f) =
        append_all-look atoi path deltas root sofar (part_text_path_safe n idx) h in
      (
        final,
        e,
        f,
        append_all-Apart atoi path (message_path itoa m) deltas root final
            (further (parting (itoa-IsOther n m d))) e,
      )
