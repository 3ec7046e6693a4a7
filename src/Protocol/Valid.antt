-- ===== src/Protocol/Valid.antt =====
-- What a chunk must satisfy to be sent.
use fast_task.Base.{
  String, true, false, not, ◌&&◌, ◌||◌, Option, none, some, List, [], ◌∷◌, ◌≡◌, ◌≢◌, ◌⊎◌, inl, inr,
  refl, arith, str_eq, eq_iff, is_none, Bool-cases, Option-cases, All,
}
use fast_task.Protocol.Chunk.{
  Chunk, Operation, ProtocolError, missing_operations, missing_operation_path, is_member,
  valid_chunk_types, path_required, is_negative_path, validate_operations, validate_fields,
  validate, write_chunk,
}

accepted_path :
    (p : List String) (rest : Option ProtocolError)
    → (elim p as (λ x. Option ProtocolError) [ [] ↦ some missing_operation_path | s ∷ q ↦ rest ])
      ≡ none
    → (p ≢ []) × (rest ≡ none)
accepted_path [] rest h = cc
accepted_path (s ∷ q) rest h = (λ e. cc, h)

accepted_kind :
    (k : String)
    → (not (str_eq k "set") && not (str_eq k "append-text")) ≡ false
    → (k ≡ "set") ⊎ (k ≡ "append-text")
accepted_kind k h = elim (Bool-cases (str_eq k "set")) [
  | inl e ↦ inl ((eq_iff k "set").0 e)
  | inr e ↦ inr ((eq_iff k "append-text").0 (ground (arith, h, e)))
]

module _ {Value : Type 0} where
  -- A set or an append, at a path that is not empty.
  abbrev pub IsOperation : Operation Value → Type 0
  IsOperation op = ((op.kind ≡ "set") ⊎ (op.kind ≡ "append-text")) × (op.path ≢ [])

  abbrev pub AreOperations : Option (List (Operation Value)) → Type 0
  AreOperations none = ⊥
  AreOperations (some ops) = All IsOperation ops

  operations_of_accepted :
      (ops : List (Operation Value)) → validate_operations ops ≡ none → All IsOperation ops
  unfolding validate_operations
  operations_of_accepted [] h = tt
  operations_of_accepted (op ∷ ops) h =
      elim (Bool-cases (not (str_eq op.kind "set") && not (str_eq op.kind "append-text"))) [
        | inl e ↦ cc (rw (validate_operations, e) at h)
        | inr e ↦
            let (p, r) =
              accepted_path op.path (validate_operations ops) (rw (validate_operations, e) at h) in
            ((accepted_kind op.kind e, p), operations_of_accepted ops r)
      ]

  operational_of_accepted :
      (ops : Option (List (Operation Value)))
      → (elim ops as (λ x. Option ProtocolError) [
        | none ↦ some missing_operations
        | some xs ↦ validate_operations xs
      ])
        ≡ none
      → AreOperations ops
  operational_of_accepted none h = cc
  operational_of_accepted (some ops) h = operations_of_accepted ops h

module _ {Part Value : Type 0} where
  pub record IsWellFormed (c : Chunk Part Value) : Type 0 where
    pub known : is_member c.kind valid_chunk_types ≡ true
    pub placed : is_member c.kind path_required ≡ true → is_none c.path ≡ false
    pub positive : is_negative_path c.path ≡ false
    pub operational : c.kind ≡ "update-state" → AreOperations c.operations
    pub parted : c.kind ≡ "part-start" → is_none c.part ≡ false
    pub reasoned : (c.kind ≡ "step-finish") ⊎ (c.kind ≡ "message-finish") → c.finish_reason ≢ ""

  module _ (c : Chunk Part Value) (h : validate_fields c ≡ none) where
    operational_part : c.kind ≡ "update-state" → AreOperations c.operations
    unfolding validate_fields
    operational_part k =
        operational_of_accepted c.operations
          (rw (validate_fields, (eq_iff c.kind "update-state").1 k) at h)

    parted_part : c.kind ≡ "part-start" → is_none c.part ≡ false
    unfolding validate_fields
    parted_part k =
        let a : str_eq c.kind "update-state" ≡ false = rw k refl in
        let b : str_eq c.kind "part-start" ≡ true = rw k refl in
        elim (Bool-cases (is_none c.part)) [
          | inl e ↦ cc (rw (validate_fields, a, b, e) at h)
          | inr e ↦ e
        ]

    reasoned_part : (c.kind ≡ "step-finish") ⊎ (c.kind ≡ "message-finish") → c.finish_reason ≢ ""
    unfolding validate_fields
    reasoned_part k e =
        let r : str_eq c.finish_reason "" ≡ true = (eq_iff c.finish_reason "").1 e in
        elim k [
          | inl s ↦
              let a : str_eq c.kind "update-state" ≡ false = rw s refl in
              let b : str_eq c.kind "part-start" ≡ false = rw s refl in
              let d : (str_eq c.kind "step-finish" || str_eq c.kind "message-finish") ≡ true =
                rw s refl in
              cc (rw (validate_fields, a, b, d, r) at h)
          | inr s ↦
              let a : str_eq c.kind "update-state" ≡ false = rw s refl in
              let b : str_eq c.kind "part-start" ≡ false = rw s refl in
              let d : (str_eq c.kind "step-finish" || str_eq c.kind "message-finish") ≡ true =
                rw s refl in
              cc (rw (validate_fields, a, b, d, r) at h)
        ]

  validate-IsWellFormed : (c : Chunk Part Value) → validate c ≡ none → IsWellFormed c
  unfolding validate
  validate-IsWellFormed c h = elim (Bool-cases (is_member c.kind valid_chunk_types)) [
    | inr a ↦ cc (rw (validate, a) at h)
    | inl a ↦ elim (Bool-cases (is_member c.kind path_required && is_none c.path)) [
      | inl b ↦ cc (rw (validate, a, b) at h)
      | inr b ↦ elim (Bool-cases (is_negative_path c.path)) [
        | inl d ↦ cc (rw (validate, a, b, d) at h)
        | inr d ↦
            let f = rw (validate, a, b, d) at h in
            record {
              known = a;
              placed = λ p. ground (arith, b, p);
              positive = d;
              operational = operational_part c f;
              parted = parted_part c f;
              reasoned = reasoned_part c f;
            }
      ]
    ]
  ]

  -- Whatever WriteChunk sends is well-formed for its type: a known type, a path where one is required and
  -- none with a negative segment, operations that are sets or appends at a path, a part, a reason.
  pub write_chunk-IsWellFormed :
      (encode : Chunk Part Value → Option String) (c : Chunk Part Value) (frame : String)
      → write_chunk encode c ≡ some frame
      → IsWellFormed c
  unfolding write_chunk
  write_chunk-IsWellFormed encode c frame h = elim (Option-cases (validate c)) [
    | inl e ↦ validate-IsWellFormed c e
    | inr (x, e) ↦ cc (rw (write_chunk, e) at h)
  ]
