-- ===== src/Protocol/Replay/Kept.antt =====
-- Replay keeps a state safe: no key that a JavaScript object must not have, and no array beyond the bound.
use fast_task.Base.{
  ℕ, zero, suc, ◌≤◌, String, false, Option, none, some, List, [], ◌∷◌, ℤ, str_eq, ◌≡◌, sym, arith,
  Bool-cases, Option-cases, subst, inl, inr, is_none, All, if◌then◌else◌,
}
use fast_task.Protocol.Chunk.{
  Operation, Chunk, validate_path, validate, is_member, unsafe_path_segments,
}
use fast_task.Protocol.Replay.{
  Json, null, flag, number, text, array, object, Elements, nil, element, Fields, nothing, field,
  Replayed, applied, get_field, put_field, nth_element, put_element, array_index, opened, within,
  apply, apply_all, append_text_at, fold_event, operations_of,
}
use fast_task.Protocol.Replay.Paths.{then_replay-eq-applied, applied_eq}

abbrev pub size : Elements → ℕ
size nil = 0
size (element v rest) = suc (size rest)

abbrev pub IsSafeKey : String → Type 0
IsSafeKey key = is_member key unsafe_path_segments ≡ false

unfoldable mutual
  pub IsKept : Json → Type 0
  IsKept (array xs) = (size xs ≤ 100001) × AreKept xs
  IsKept (object fs) = FieldsKept fs
  IsKept null = Unit
  IsKept (flag b) = Unit
  IsKept (number n) = Unit
  IsKept (text s) = Unit

  pub AreKept : Elements → Type 0
  AreKept nil = Unit
  AreKept (element v rest) = IsKept v × AreKept rest

  pub FieldsKept : Fields → Type 0
  FieldsKept nothing = Unit
  FieldsKept (field key v rest) = IsSafeKey key × (IsKept v × FieldsKept rest)

get_field-IsKept : (key : String) (fs : Fields) → FieldsKept fs → IsKept (get_field key fs)
unfolding get_field IsKept FieldsKept
get_field-IsKept key nothing k = tt
get_field-IsKept key (field name v rest) (s, (k, ks)) = elim (Bool-cases (str_eq name key)) [
  | inl e ↦ subst (λ b. IsKept (if b then v else get_field key rest)) (sym e) k
  | inr e ↦
      subst (λ b. IsKept (if b then v else get_field key rest)) (sym e)
        (get_field-IsKept key rest ks)
]

put_field-FieldsKept :
    (key : String) (v : Json) (fs : Fields)
    → IsSafeKey key
    → IsKept v
    → FieldsKept fs
    → FieldsKept (put_field key v fs)
unfolding put_field FieldsKept
put_field-FieldsKept key v nothing s k ks = (s, (k, tt))
put_field-FieldsKept key v (field name w rest) s k (s', (k', ks)) =
    elim (Bool-cases (str_eq name key)) [
      | inl e ↦
          subst
            (λ b. FieldsKept (if b then field name v rest else field name w (put_field key v rest)))
            (sym e) (s', (k, ks))
      | inr e ↦
          subst
            (λ b. FieldsKept (if b then field name v rest else field name w (put_field key v rest)))
            (sym e) (s', (k', put_field-FieldsKept key v rest s k ks))
    ]

nth_element-IsKept : (i : ℕ) (xs : Elements) → AreKept xs → IsKept (nth_element i xs)
unfolding nth_element IsKept AreKept
nth_element-IsKept i nil k = tt
nth_element-IsKept zero (element v rest) k = k.0
nth_element-IsKept (suc i) (element v rest) k = nth_element-IsKept i rest k.1

put_element-AreKept :
    (i : ℕ) (v : Json) (xs : Elements) → IsKept v → AreKept xs → AreKept (put_element i v xs)
unfolding put_element IsKept AreKept
put_element-AreKept zero v nil k ks = (k, tt)
put_element-AreKept (suc i) v nil k ks = (tt, put_element-AreKept i v nil k tt)
put_element-AreKept zero v (element w rest) k ks = (k, ks.1)
put_element-AreKept (suc i) v (element w rest) k ks = (ks.0, put_element-AreKept i v rest k ks.1)

size-put_element :
    (i n : ℕ) (v : Json) (xs : Elements)
    → i ≤ n
    → size xs ≤ suc n
    → size (put_element i v xs) ≤ suc n
unfolding put_element
size-put_element zero n v nil h k = omega arith
size-put_element (suc i) zero v xs h k = omega arith
size-put_element (suc i) (suc n) v nil h k =
    omega (arith, size-put_element i n v nil (omega arith) (omega arith))
size-put_element zero n v (element w rest) h k = omega arith
size-put_element (suc i) (suc n) v (element w rest) h k =
    omega (arith, size-put_element i n v rest (omega arith) (omega arith))

safe_head : (s : String) (path : List String) → validate_path (s ∷ path) ≡ none → IsSafeKey s
unfolding validate_path
safe_head s path h = elim (Bool-cases (is_member s unsafe_path_segments)) [
  | inl e ↦ absurd (let h' = rw (validate_path, e) at h in cc)
  | inr e ↦ e
]

module _ (atoi : String → Option ℤ) where
  array_index-le : (s : String) (i : ℕ) → array_index atoi s ≡ some i → i ≤ 100000
  unfolding array_index
  array_index-le s i h = ground arith

  opened-IsKept : (s : String) (node : Json) → IsKept node → IsKept (opened atoi s node)
  unfolding opened IsKept AreKept FieldsKept
  opened-IsKept s null k = elim (Bool-cases (is_none (atoi s))) [
    | inl e ↦ subst (λ b. IsKept (if b then object nothing else array nil)) (sym e) tt
    | inr e ↦
        subst (λ b. IsKept (if b then object nothing else array nil)) (sym e) (omega arith, tt)
  ]
  opened-IsKept s (flag b) k = k
  opened-IsKept s (number n) k = k
  opened-IsKept s (text x) k = k
  opened-IsKept s (array xs) k = k
  opened-IsKept s (object fs) k = k

  within-IsKept :
      (next : Json → Replayed Json) (s : String) (node node' : Json)
      → IsSafeKey s
      → IsKept node
      → ((old new : Json) → IsKept old → next old ≡ applied new → IsKept new)
      → within atoi next s node ≡ applied node'
      → IsKept node'
  unfolding within IsKept
  within-IsKept next s (object fs) node' u k f h =
      let (v, e, g) = then_replay-eq-applied (next (get_field s fs)) _ h in
      subst IsKept (applied_eq g)
        (put_field-FieldsKept s v fs u (f _ v (get_field-IsKept s fs k) e) k)
  within-IsKept next s (array xs) node' u k f h = elim (Option-cases (array_index atoi s)) [
    | inl n ↦ absurd (let h' = rw (within, n) at h in cc)
    | inr (i, n) ↦
        let (v, e, g) = then_replay-eq-applied (next (nth_element i xs)) _ (rw (within, n) at h) in
        subst IsKept (applied_eq g) (
          size-put_element i 100000 v xs (array_index-le s i n) k.0,
          put_element-AreKept i v xs (f _ v (nth_element-IsKept i xs k.1) e) k.1,
        )
  ]
  within-IsKept next s null node' u k f h = absurd cc
  within-IsKept next s (flag b) node' u k f h = absurd cc
  within-IsKept next s (number n) node' u k f h = absurd cc
  within-IsKept next s (text x) node' u k f h = absurd cc

  append-IsKept : (a b : Json) {c : Json} → append_text_at a b ≡ applied c → IsKept c
  unfolding append_text_at IsKept
  append-IsKept (text a) (text b) h = subst IsKept (applied_eq h) tt
  append-IsKept a b h = absurd cc

  apply-IsKept :
      (path : List String) (op : Operation Json) (root root' : Json)
      → IsKept op.value
      → IsKept root
      → apply atoi path op root ≡ applied root'
      → IsKept root'
  unfolding apply
  apply-IsKept [] op root root' v k h = elim (Bool-cases (str_eq op.kind "set")) [
    | inl e ↦ subst IsKept (applied_eq (rw (apply, e) at h)) v
    | inr e ↦ append-IsKept root op.value (rw (apply, e) at h)
  ]
  apply-IsKept (s ∷ path) op root root' v k h = elim (Option-cases (validate_path (s ∷ path))) [
    | inr (e, f) ↦ absurd (let h' = rw (apply, f) at h in cc)
    | inl f ↦
        within-IsKept (apply atoi path op) s (opened atoi s root) root' (safe_head s path f)
          (opened-IsKept s root k) (λ old new u e. apply-IsKept path op old new v u e)
          (rw (apply, f) at h)
  ]

  apply_all-IsKept :
      (ops : List (Operation Json)) (root root' : Json)
      → All (λ op. IsKept op.value) ops
      → IsKept root
      → apply_all atoi ops root ≡ applied root'
      → IsKept root'
  unfolding apply_all
  apply_all-IsKept [] root root' a k h = subst IsKept (applied_eq h) k
  apply_all-IsKept (op ∷ ops) root root' a k h =
      let (mid, e, g) =
        then_replay-eq-applied (apply atoi op.path op root) (apply_all atoi ops) h in
      apply_all-IsKept ops mid root' a.1 (apply-IsKept op.path op root mid a.0 k e) g

  -- Whatever event is folded into a state, none of its keys ever comes to be one that an object of the
  -- client must not have, and no array grows beyond its bound, if this holds of the state and of the values
  -- that the event brings.
  pub fold_event-IsKept :
      {Part : Type 0} (chunk : Chunk Part Json) (root root' : Json)
      → All (λ op. IsKept op.value) (operations_of chunk)
      → IsKept root
      → fold_event atoi root chunk ≡ applied root'
      → IsKept root'
  unfolding fold_event
  fold_event-IsKept chunk root root' a k h = elim (Option-cases (validate chunk)) [
    | inr (e, f) ↦ absurd (let h' = rw (fold_event, f) at h in cc)
    | inl f ↦ elim (Bool-cases (str_eq chunk.kind "update-state")) [
      | inl e ↦ apply_all-IsKept (operations_of chunk) root root' a k (rw (fold_event, f, e) at h)
      | inr e ↦ subst IsKept (applied_eq (rw (fold_event, f, e) at h)) k
    ]
  ]
