-- ===== src/Coords/Writes.antt =====
-- What the writes of coordinates keep: what an agent does, and what a user's write leaves.
use fast_task.Base.{
  ℕ, ◌-◌, ◌≤◌, String, true, ◌≡◌, leb→le, refl, sym, subst, arith, none, List, [], ◌∷◌, ◌++◌, ℤ,
  pos, any, leb, ◌==◌, ==_iff, Bool-cases, inl, inr, trim_space, if◌then◌else◌,
}
use Prim.Native.Char.{code}
use fast_task.Domain.Lens.{validate_coord}
use fast_task.Jobs.Model.{ok, count, update}
use fast_task.Jobs.Steps.{ok_eq}
use fast_task.Protocol.Replay.{Json, null, flag, number, text, array, object}
use fast_task.Coords.{
  TaskCoord, width, bytes, take_bytes, truncate_rationale, is_same_place, create_coord,
  is_coord_version, write_coord, coord_value, or_threshold,
}

bytes-take_bytes : (n : ℕ) (s : String) → bytes (take_bytes n s) ≤ n
unfolding bytes take_bytes
bytes-take_bytes n String.[] = omega arith
bytes-take_bytes n (String.◌∷◌ c s) =
    let k = bytes-take_bytes (n - width (code c)) s in
    elim (Bool-cases (leb (width (code c)) n)) [
      | inl e ↦
          subst
            (λ b. bytes (if b then String.◌∷◌ c (take_bytes (n - width (code c)) s) else "") ≤ n)
            (sym e) (omega (arith, k, leb→le _ _ e))
      | inr e ↦
          subst
            (λ b. bytes (if b then String.◌∷◌ c (take_bytes (n - width (code c)) s) else "") ≤ n)
            (sym e) (omega arith)
    ]

pub bytes-truncate_rationale : (value : String) → bytes (truncate_rationale value) ≤ 120
unfolding truncate_rationale
bytes-truncate_rationale value = elim (Bool-cases (leb (bytes (trim_space value)) 120)) [
  | inl e ↦
      subst (λ b. bytes (if b then trim_space value else take_bytes 120 (trim_space value)) ≤ 120)
        (sym e) (leb→le _ _ e)
  | inr e ↦
      subst (λ b. bytes (if b then trim_space value else take_bytes 120 (trim_space value)) ≤ 120)
        (sym e) (bytes-take_bytes 120 (trim_space value))
]

-- Coordinates in range, a short rationale, and a pin that only a user sets.
pub record IsSoundCoord (c : TaskCoord) : Type 0 where
  pub range : validate_coord c.x c.y ≡ none
  pub short : bytes c.rationale ≤ 120
  pub own : c.pinned ≡ true → c.source ≡ "user"

pub create_coord-eq-ok :
    (c : TaskCoord) (coords : List TaskCoord) {rows : List TaskCoord}
    → create_coord c coords ≡ ok rows
    → rows ≡ coords ++ c ∷ []
unfolding create_coord
create_coord-eq-ok c coords h = elim (Bool-cases (any (is_same_place c) coords)) [
  | inl e ↦ absurd (let h' = rw (create_coord, e) at h in cc)
  | inr e ↦ sym (ok_eq (rw (create_coord, e) at h))
]

pub write_coord-eq-ok :
    (id : String) (expected : ℤ) (f : TaskCoord → TaskCoord) (coords : List TaskCoord)
    {rows : List TaskCoord}
    → write_coord id expected f coords ≡ ok rows
    → (count (is_coord_version id expected) coords ≡ 1)
      × (rows ≡ update (is_coord_version id expected) f coords)
unfolding write_coord
write_coord-eq-ok id expected f coords h =
    elim (Bool-cases (count (is_coord_version id expected) coords == 1)) [
      | inr e ↦ absurd (let h' = rw (write_coord, e) at h in cc)
      | inl e ↦ ((==_iff _ _).0 e, sym (ok_eq (rw (write_coord, e) at h)))
    ]

module _ (int_value : Json → ℤ) (text_value : Json → String) where
  pub coord_value_range :
      (json : Json)
      → validate_coord
          (or_threshold int_value text_value (coord_value int_value text_value json))
          (pos 50)
        ≡ none
  unfolding coord_value validate_coord
  coord_value_range null = refl
  coord_value_range (flag b) = ground arith
  coord_value_range (number n) = ground arith
  coord_value_range (text s) = ground arith
  coord_value_range (array xs) = ground arith
  coord_value_range (object fs) = ground arith

pub both_ranges :
    (x y : ℤ)
    → validate_coord x (pos 50) ≡ none
    → validate_coord y (pos 50) ≡ none
    → validate_coord x y ≡ none
unfolding validate_coord
both_ranges x y h k = ground arith
