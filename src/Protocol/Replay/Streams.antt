-- ===== src/Protocol/Replay/Streams.antt =====
-- Text that is streamed by append-text operations arrives whole: replay.go on a run of text deltas.
use Prim.Native.String.{◌++◌ as ◌<>◌}
use fast_task.Base.{
  String, Option, none, List, [], ◌∷◌, map, ℤ, ◌≡◌, refl, sym, ◌∙◌, ap, Bool-cases, Option-cases,
  subst, inl, inr,
}
use fast_task.Protocol.Chunk.{Operation, validate_path, is_member, unsafe_path_segments}
use fast_task.Protocol.Replay.{
  Json, null, flag, number, text, array, object, applied, get_field, put_field, nth_element,
  put_element, array_index, opened, within, apply, apply_all, append_text_at,
}
use fast_task.Protocol.Replay.Paths.{
  look, apply-look, Apart, apply-Apart, applied_eq, then_replay-eq-applied,
}

abbrev pub append : List String → String → Operation Json
append path delta = record { kind = "append-text"; path = path; value = text delta }

safe_tail :
    (s : String) (path : List String) → validate_path (s ∷ path) ≡ none → validate_path path ≡ none
unfolding validate_path
safe_tail s path h = elim (Bool-cases (is_member s unsafe_path_segments)) [
  | inl e ↦ absurd (let h' = rw (validate_path, e) at h in cc)
  | inr e ↦ rw (validate_path, e) at h
]

module _ (atoi : String → Option ℤ) where
  -- Where a text stands at a safe path, an append succeeds.
  append_succeeds :
      (path full : List String) (root : Json) (a b : String)
      → validate_path path ≡ none
      → look atoi path root ≡ text a
      → (root' : Json) × (apply atoi path (append full b) root ≡ applied root')
  unfolding apply look append_text_at
  append_succeeds [] full root a b s h =
      (text (a <> b), subst (λ r. append_text_at r (text b) ≡ applied (text (a <> b))) (sym h) refl)
  append_succeeds (seg ∷ path) full (object fs) a b s h =
      let (child, e) = append_succeeds path full (get_field seg fs) a b (safe_tail seg path s) h in
      (object (put_field seg child fs), rw (apply, s, opened, within, e))
  append_succeeds (seg ∷ path) full (array xs) a b s h =
      elim (Option-cases (array_index atoi seg)) [
        | inl f ↦ absurd (let h' = rw (look, f) at h in cc)
        | inr (i, f) ↦
            let (child, e) =
              append_succeeds path full (nth_element i xs) a b (safe_tail seg path s)
                (rw (look, f) at h) in
            (array (put_element i child xs), rw (apply, s, opened, within, f, e))
      ]
  append_succeeds (seg ∷ path) full null a b s h = absurd cc
  append_succeeds (seg ∷ path) full (flag x) a b s h = absurd cc
  append_succeeds (seg ∷ path) full (number n) a b s h = absurd cc
  append_succeeds (seg ∷ path) full (text x) a b s h = absurd cc

  appended :
      (full : List String) (b : String) (x y : Json) (a : String)
      → apply atoi [] (append full b) x ≡ applied y
      → x ≡ text a
      → y ≡ text (a <> b)
  unfolding apply append_text_at
  appended full b x y a h e =
      let h' : append_text_at (text a) (text b) ≡ applied y =
        subst (λ r. append_text_at r (text b) ≡ applied y) e h in
      cc

  abbrev pub joined : String → List String → String
  joined sofar [] = sofar
  joined sofar (delta ∷ deltas) = joined (sofar <> delta) deltas

  -- Where a text stands at a path without an unsafe segment, any number of appends there all succeed, and
  -- leave the text followed by the deltas in their order.
  pub append_all-look :
      (path deltas : List String) (root : Json) (sofar : String)
      → validate_path path ≡ none
      → look atoi path root ≡ text sofar
      → (root' : Json) × (apply_all atoi (map (append path) deltas) root ≡ applied root')
        × (look atoi path root' ≡ text (joined sofar deltas))
  unfolding apply_all
  append_all-look path [] root sofar s h = (root, refl, h)
  append_all-look path (delta ∷ deltas) root sofar s h =
      let (child, e) = append_succeeds path path root sofar delta s h in
      let k = apply-look atoi path (append path delta) root child e in
      let (final, f, g) =
        append_all-look path deltas child (sofar <> delta) s (appended path delta _ _ sofar k h) in
      (final, rw (apply_all, e, f), g)

  -- A run of appends at one path leaves alone what stands at a path apart from it.
  pub append_all-Apart :
      (path other deltas : List String) (root root' : Json)
      → Apart atoi path other
      → apply_all atoi (map (append path) deltas) root ≡ applied root'
      → look atoi other root' ≡ look atoi other root
  unfolding apply_all
  append_all-Apart path other [] root root' a h = ap (look atoi other) (sym (applied_eq h))
  append_all-Apart path other (delta ∷ deltas) root root' a h =
      let (mid, e, g) =
        then_replay-eq-applied (apply atoi path (append path delta) root)
          (apply_all atoi (map (append path) deltas)) h in
      append_all-Apart path other deltas mid root' a g
      ∙ apply-Apart atoi path other (append path delta) root mid a e
