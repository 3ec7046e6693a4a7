-- ===== src/Protocol/Replay/Paths.antt =====
-- An operation changes the value at its path and no other: replay.go as updates of a value at a path.
use fast_task.Base.{
  ℕ, zero, suc, String, false, Option, none, some, List, [], ◌∷◌, ℤ, str_eq, ◌≡◌, ◌≢◌, inl, inr,
  refl, sym, ◌∙◌, ap, arith, Bool-cases, Option-cases, eq_iff, eq_refl, subst, is_none,
}
use fast_task.Protocol.Chunk.{Operation, validate_path}
use fast_task.Protocol.Replay.{
  Json, null, flag, number, text, array, object, Elements, nil, element, Fields, nothing, field,
  Replayed, applied, rejected, then_replay, get_field, put_field, nth_element, put_element,
  array_index, opened, within, apply,
}

pub applied_eq : {A : Type 0} {a b : A} → applied a ≡ applied b → a ≡ b
applied_eq h = cc

pub then_replay-eq-applied :
    {A B : Type 0} (o : Replayed A) (rest : A → Replayed B) {b : B}
    → then_replay o rest ≡ applied b
    → (a : A) × (o ≡ applied a) × (rest a ≡ applied b)
then_replay-eq-applied (rejected e) rest h = cc
then_replay-eq-applied (applied a) rest h = (a, refl, h)

get_field-put_field :
    (key : String) (v : Json) (fs : Fields) → get_field key (put_field key v fs) ≡ v
unfolding get_field put_field
get_field-put_field key v nothing = rw (eq_refl key)
get_field-put_field key v (field k w rest) = elim (Bool-cases (str_eq k key)) [
  | inl e ↦ rw (e, e)
  | inr e ↦ rw (e, e, get_field-put_field key v rest)
]

get_field-put_field-other :
    (key other : String) (v : Json) (fs : Fields)
    → str_eq key other ≡ false
    → get_field other (put_field key v fs) ≡ get_field other fs
unfolding get_field put_field
get_field-put_field-other key other v nothing n = rw n
get_field-put_field-other key other v (field k w rest) n = elim (Bool-cases (str_eq k key)) [
  | inl e ↦ let m : str_eq k other ≡ false = ground (arith, eq_iff k key) in rw (e, m)
  | inr e ↦ elim (Bool-cases (str_eq k other)) [
    | inl m ↦ rw (e, m)
    | inr m ↦ rw (e, m, get_field-put_field-other key other v rest n)
  ]
]

nth_element-put_element :
    (i : ℕ) (v : Json) (xs : Elements) → nth_element i (put_element i v xs) ≡ v
unfolding nth_element put_element
nth_element-put_element zero v nil = refl
nth_element-put_element zero v (element x xs) = refl
nth_element-put_element (suc i) v nil = nth_element-put_element i v nil
nth_element-put_element (suc i) v (element x xs) = nth_element-put_element i v xs

nth_element-put_element-other :
    (i j : ℕ) (v : Json) (xs : Elements)
    → i ≢ j
    → nth_element j (put_element i v xs) ≡ nth_element j xs
unfolding nth_element put_element
nth_element-put_element-other zero zero v xs n = absurd (n refl)
nth_element-put_element-other zero (suc j) v nil n = refl
nth_element-put_element-other zero (suc j) v (element x xs) n = refl
nth_element-put_element-other (suc i) zero v nil n = refl
nth_element-put_element-other (suc i) zero v (element x xs) n = refl
nth_element-put_element-other (suc i) (suc j) v nil n =
    nth_element-put_element-other i j v nil (λ e. n (ap suc e))
nth_element-put_element-other (suc i) (suc j) v (element x xs) n =
    nth_element-put_element-other i j v xs (λ e. n (ap suc e))

module _ (atoi : String → Option ℤ) where
  -- The value at a path; what is not there reads as null.
  unfoldable pub look : List String → Json → Json
  look [] node = node
  look (s ∷ path) (object fields) = look path (get_field s fields)
  look (s ∷ path) (array items) = elim (array_index atoi s) [
    | none ↦ null
    | some i ↦ look path (nth_element i items)
  ]
  look (s ∷ path) node = null

  look-null : (path : List String) → look path null ≡ null
  unfolding look
  look-null [] = refl
  look-null (s ∷ path) = refl

  look-opened :
      (s t : String) (path : List String) (node : Json)
      → look (t ∷ path) (opened atoi s node) ≡ look (t ∷ path) node
  unfolding look opened get_field nth_element
  look-opened s t path null = elim (Bool-cases (is_none (atoi s))) [
    | inl e ↦ rw (e, look-null path)
    | inr e ↦ elim (Option-cases (array_index atoi t)) [
      | inl f ↦ rw (e, look, f)
      | inr (i, f) ↦ rw (e, look, f, look-null path)
    ]
  ]
  look-opened s t path (flag b) = refl
  look-opened s t path (number n) = refl
  look-opened s t path (text x) = refl
  look-opened s t path (array xs) = refl
  look-opened s t path (object fs) = refl

  -- Two segments that never address the same place.
  abbrev pub IsOther : String → String → Type 0
  IsOther s t = (s ≢ t) × ((i : ℕ) → array_index atoi s ≡ some i → array_index atoi t ≢ some i)

  -- What a successful step into a node does: it changes the child of the segment and no other.
  record Within (next : Json → Replayed Json) (s : String) (node node' : Json) : Type 0 where
    pub old : Json
    pub new : Json
    pub below : next old ≡ applied new
    pub before : (path : List String) → look (s ∷ path) node ≡ look path old
    pub after : (path : List String) → look (s ∷ path) node' ≡ look path new
    pub others :
        (t : String) (path : List String)
        → IsOther s t
        → look (t ∷ path) node' ≡ look (t ∷ path) node

  within-Within :
      (next : Json → Replayed Json) (s : String) (node node' : Json)
      → within atoi next s node ≡ applied node'
      → Within next s node node'
  unfolding within look
  within-Within next s (object fs) node' h =
      let (v, e, k) = then_replay-eq-applied (next (get_field s fs)) _ h in
      subst (Within next s (object fs)) (applied_eq k) (record {
        old = get_field s fs;
        new = v;
        below = e;
        before = λ path. refl;
        after = λ path. ap (look path) (get_field-put_field s v fs);
        others = λ t path o.
            ap (look path) (get_field-put_field-other s t v fs (ground (arith, o.0, eq_iff s t)));
      })
  within-Within next s (array xs) node' h = elim (Option-cases (array_index atoi s)) [
    | inl f ↦ absurd (let h' = rw (within, f) at h in cc)
    | inr (i, f) ↦
        let (v, e, k) = then_replay-eq-applied (next (nth_element i xs)) _ (rw (within, f) at h) in
        subst (Within next s (array xs)) (applied_eq k) (record {
          old = nth_element i xs;
          new = v;
          below = e;
          before = λ path. rw (look, f);
          after = λ path. rw (look, f, nth_element-put_element i v xs);
          others = λ t path o. elim (Option-cases (array_index atoi t)) [
            | inl g ↦ rw (look, g)
            | inr (j, g) ↦ rw (
              look,
              g,
              nth_element-put_element-other i j v xs (λ q. o.1 i f (g ∙ ap some (sym q))),
            )
          ];
        })
  ]
  within-Within next s null node' h = absurd cc
  within-Within next s (flag b) node' h = absurd cc
  within-Within next s (number n) node' h = absurd cc
  within-Within next s (text x) node' h = absurd cc

  -- Two paths of which neither leads to the other's place.
  pub data Apart : List String → List String → Type 0 where
    parting : {s t : String} {p q : List String} → IsOther s t → Apart (s ∷ p) (t ∷ q)
    further : {s : String} {p q : List String} → Apart p q → Apart (s ∷ p) (s ∷ q)

  apply-cons :
      (s : String) (path : List String) (op : Operation Json) (root root' : Json)
      → apply atoi (s ∷ path) op root ≡ applied root'
      → Within (apply atoi path op) s (opened atoi s root) root'
  unfolding apply
  apply-cons s path op root root' h = elim (Option-cases (validate_path (s ∷ path))) [
    | inr (e, f) ↦ absurd (let h' = rw (apply, f) at h in cc)
    | inl f ↦ within-Within (apply atoi path op) s (opened atoi s root) root' (rw (apply, f) at h)
  ]

  -- An operation does at its path what it does at a root: the value that stood there becomes the new one.
  pub apply-look :
      (path : List String) (op : Operation Json) (root root' : Json)
      → apply atoi path op root ≡ applied root'
      → apply atoi [] op (look path root) ≡ applied (look path root')
  unfolding look
  apply-look [] op root root' h = h
  apply-look (s ∷ path) op root root' h =
      let w = apply-cons s path op root root' h in
      subst (λ x. apply atoi [] op x ≡ applied (look (s ∷ path) root'))
        (sym (w.before path) ∙ look-opened s s path root)
        (subst (λ x. apply atoi [] op (look path w.old) ≡ applied x) (sym (w.after path))
          (apply-look path op w.old w.new w.below))

  -- An operation leaves alone what stands at a path apart from its own.
  pub apply-Apart :
      (path other : List String) (op : Operation Json) (root root' : Json)
      → Apart path other
      → apply atoi path op root ≡ applied root'
      → look other root' ≡ look other root
  apply-Apart [] other op root root' a h = elim a [ ]
  apply-Apart (s ∷ path) [] op root root' a h = elim a [ ]
  apply-Apart (s ∷ path) (t ∷ other) op root root' (parting o) h =
      let w = apply-cons s path op root root' h in w.others t other o ∙ look-opened s t other root
  apply-Apart (s ∷ path) (_ ∷ other) op root root' (further a) h =
      let w = apply-cons s path op root root' h in
      w.after other
      ∙ (apply-Apart path other op w.old w.new a w.below
          ∙ (sym (w.before other) ∙ look-opened s s other root))
