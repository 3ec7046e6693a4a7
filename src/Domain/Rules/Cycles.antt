-- ===== src/Domain/Rules/Cycles.antt =====
-- WouldCreateCycle, on a task tree given by its map of parents.
use fast_task.Base.{
  ℕ, zero, suc, ◌≤◌, ◌<◌, String, Bool, true, false, some, ◌≡◌, ◌≢◌, ◌⊎◌, inl, inr, refl, sym, ap,
  ◌∙◌, arith, str_eq, eq_iff, if◌then◌else◌, Bool-cases, subst,
}
use fast_task.Domain.Rules.{walk_parents, would_create_cycle}

-- The chain of parents from a task ends at a root. "" is Go's value for a missing parent.
pub data Rooted (parents : String → String) : String → Type 0 where
  root : {id : String} → id ≡ "" → Rooted parents id
  up : {id : String} → id ≢ "" → Rooted parents (parents id) → Rooted parents id

-- How many parents the chain has.
abbrev pub height : {parents : String → String} {id : String} → Rooted parents id → ℕ
height (root p) = 0
height (up n r) = suc (height r)

-- `task` stands on the chain of parents that starts at `id`.
pub data OnChain (parents : String → String) (task : String) : String → Type 0 where
  here : {id : String} → id ≢ "" → id ≡ task → OnChain parents task id
  above : {id : String} → id ≢ "" → OnChain parents task (parents id) → OnChain parents task id

-- The tree after `task` has been given a new parent.
abbrev pub moved : (String → String) → String → String → String → String
moved parents task parent id = if str_eq id task then parent else parents id

module _ (task : String) (parents : String → String) where
  walk-true :
      (fuel : ℕ) (id : String)
      → walk_parents fuel task parents id ≡ some true
      → OnChain parents task id
  unfolding walk_parents
  walk-true zero id h = cc
  walk-true (suc fuel) id h = elim (Bool-cases (str_eq id "")) [
    | inl e ↦ cc (rw e at h)
    | inr e ↦ elim (Bool-cases (str_eq id task)) [
      | inl d ↦ here (λ p. cc (e, (eq_iff id "").1 p)) ((eq_iff id task).0 d)
      | inr d ↦
          above (λ p. cc (e, (eq_iff id "").1 p)) (walk-true fuel (parents id) (rw (e, d) at h))
    ]
  ]

  walk-false :
      (fuel : ℕ) (id : String)
      → walk_parents fuel task parents id ≡ some false
      → ¬ OnChain parents task id
  unfolding walk_parents
  walk-false zero id h c = cc
  walk-false (suc fuel) id h (here n p) = ground (arith, h, eq_iff id "", eq_iff id task)
  walk-false (suc fuel) id h (above n c) =
      walk-false fuel (parents id) (ground (arith, h, eq_iff id "", eq_iff id task)) c

  walk_total :
      (fuel : ℕ) (id : String) (r : Rooted parents id)
      → height r < fuel
      → (b : Bool) × (walk_parents fuel task parents id ≡ some b)
  unfolding walk_parents
  walk_total zero id r h = absurd (omega arith)
  walk_total (suc fuel) id (root p) h = (false, ground (arith, eq_iff id ""))
  walk_total (suc fuel) id (up n r) h =
      let (b, e) = walk_total fuel (parents id) r (omega arith) in
      elim (Bool-cases (str_eq id task)) [
        | inl d ↦ (true, ground (arith, eq_iff id ""))
        | inr d ↦ (b, ground (arith, e, eq_iff id ""))
      ]

  -- On a chain that ends, with more fuel than its height, the walk returns, and it returns whether the
  -- task stands on the chain.
  pub would_create_cycle-OnChain :
      (fuel : ℕ) (parent : String) (r : Rooted parents parent)
      → height r < fuel
      → ((would_create_cycle fuel task parent parents ≡ some true) × OnChain parents task parent)
        ⊎ ((would_create_cycle fuel task parent parents ≡ some false)
            × (¬ OnChain parents task parent))
  unfolding would_create_cycle
  would_create_cycle-OnChain fuel parent r h =
      let (b, e) = walk_total fuel parent r h in
      elim (Bool-cases b) [
        | inl d ↦ let e' = e ∙ ap some d in inl (e', walk-true fuel parent e')
        | inr d ↦ let e' = e ∙ ap some d in inr (e', walk-false fuel parent e')
      ]

  module _ (parent : String) where
    -- Off the task the chain is the old one.
    moved-Rooted :
        (id : String)
        → Rooted parents id
        → ¬ OnChain parents task id
        → Rooted (moved parents task parent) id
    moved-Rooted id (root p) n = root p
    moved-Rooted id (up m r) n = up m (
        subst (Rooted (moved parents task parent))
          (ground (arith, λ (d : id ≡ task). n (here m d), eq_iff id task))
          (moved-Rooted (parents id) r (λ c. n (above m c))))

    -- If the walk answers no, the move keeps every task's chain of parents ending at a root.
    pub would_create_cycle-Rooted :
        (fuel : ℕ)
        → would_create_cycle fuel task parent parents ≡ some false
        → ((id : String) → Rooted parents id)
        → (id : String) → Rooted (moved parents task parent) id
    unfolding would_create_cycle
    would_create_cycle-Rooted fuel h forest id = go id (forest id)
      where
        at_parent : Rooted (moved parents task parent) parent
        at_parent = moved-Rooted parent (forest parent) (walk-false fuel parent h)

        go : (x : String) → Rooted parents x → Rooted (moved parents task parent) x
        go x (root p) = root p
        go x (up m r) = elim (Bool-cases (str_eq x task)) [
          | inl d ↦ up m (rw d at_parent)
          | inr d ↦ up m (rw d (go (parents x) r))
        ]

OnChain-ne : {parents : String → String} {task id : String} → OnChain parents task id → task ≢ ""
OnChain-ne (here n p) q = n (p ∙ q)
OnChain-ne (above n c) q = OnChain-ne c q

height_unique :
    (parents : String → String) {a b : String} (r : Rooted parents a) (s : Rooted parents b)
    → a ≡ b
    → height r ≡ height s
height_unique parents (root p) (root q) e = refl
height_unique parents (root p) (up n s) e = absurd (n (sym e ∙ p))
height_unique parents (up n r) (root q) e = absurd (n (e ∙ q))
height_unique parents (up n r) (up m s) e = ap suc (height_unique parents r s (ap parents e))

module _ (task : String) (parents : String → String) (parent : String) where
  -- Along the old chain the new one comes down to the task.
  OnChain-height :
      {id : String}
      → OnChain parents task id
      → (y : String) → id ≡ y
      → (r : Rooted (moved parents task parent) y)
      → (x : String) × (x ≡ task)
        × (x ≢ "")
        × ((s : Rooted (moved parents task parent) x) × (height s ≤ height r))
  OnChain-height (here n p) y e r = (y, sym e ∙ p, (λ q. n (e ∙ q)), (r, omega arith))
  OnChain-height (above n c) y e (root p) = absurd (n (e ∙ p))
  OnChain-height {id} (above n c) y e (up m r) = elim (Bool-cases (str_eq y task)) [
    | inl d ↦ (y, (eq_iff y task).0 d, m, (up m r, omega arith))
    | inr d ↦
        let below : parents id ≡ moved parents task parent y = rw d (ap parents e) in
        let (x, p, q, (s, h)) = OnChain-height c (moved parents task parent y) below r in
        (x, p, q, (s, omega arith))
  ]

  not_Rooted_of_OnChain :
      {y : String} → OnChain parents task parent → y ≡ task → ¬ Rooted (moved parents task parent) y
  not_Rooted_of_OnChain {y} c e (root p) =
      let chain : ¬ (task ≡ "") = OnChain-ne c in chain (sym e ∙ p)
  not_Rooted_of_OnChain {y} c e (up m r) =
      let there : parent ≡ moved parents task parent y = rw ((eq_iff y task).1 e) refl in
      let (x, p, q, (s, h)) = OnChain-height c (moved parents task parent y) there r in
      absurd (omega (arith, height_unique (moved parents task parent) s (up m r) (p ∙ sym e)))

  -- If the walk answers yes, the move would leave the task on a chain that never ends.
  pub would_create_cycle-not-Rooted :
      (fuel : ℕ)
      → would_create_cycle fuel task parent parents ≡ some true
      → ¬ Rooted (moved parents task parent) task
  unfolding would_create_cycle
  would_create_cycle-not-Rooted fuel h r =
      not_Rooted_of_OnChain (walk-true task parents fuel parent h) refl r
