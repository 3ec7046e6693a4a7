-- ===== src/Coords/Agent.antt =====
-- An agent's writes of coordinates, in any sequence: createAgentCoord and updateAgentCoord of lens.go.
use fast_task.Base.{
  ℕ, ◌≤◌, String, true, false, ◌&&◌, ◌≡◌, sym, ap, subst, arith, none, some, List, ℤ, not, All, In,
  Bool-cases, Option-cases, inl, inr, some_eq, eq_refl,
}
use fast_task.Domain.Lens.{validate_coord, lens_research_risk}
use fast_task.Jobs.Model.{ok}
use fast_task.Jobs.Steps.{ok_eq}
use fast_task.Progress.Rows.{count_one, All-update, All-snoc, In-found, In-snoc, In-update}
use fast_task.Protocol.Replay.{Json, Fields, get_field}
use fast_task.Coords.{
  TaskCoord, bytes, is_coord_of, find_coord, is_coord_version, write_coord, new_row, AgentCoord,
  coord_from_patch, create_agent_coord, agent_row, update_agent_coord, has_field,
}
use fast_task.Coords.Writes.{
  IsSoundCoord, bytes-truncate_rationale, create_coord-eq-ok, write_coord-eq-ok, coord_value_range,
  both_ranges,
}

module _ (int_value : Json → ℤ) (text_value : Json → String) where
  -- One write of an agent, from a patch.
  pub data AgentStep (rows : List TaskCoord) : List TaskCoord → Type 0 where
    creates :
        {rows' : List TaskCoord} (id : String) (now : ℕ) (user_id task_id : String) (patch : Fields)
        (c : AgentCoord)
        → coord_from_patch int_value text_value patch ≡ some c
        → create_agent_coord id now user_id task_id c rows ≡ ok rows'
        → AgentStep rows rows'
    updates :
        {rows' : List TaskCoord} (id : String) (now : ℕ) (user_id task_id : String) (patch : Fields)
        (c : AgentCoord)
        → coord_from_patch int_value text_value patch ≡ some c
        → update_agent_coord id now user_id task_id c rows ≡ ok rows'
        → AgentStep rows rows'

  pub data AgentRun (rows : List TaskCoord) : List TaskCoord → Type 0 where
    start : AgentRun rows rows
    then_step :
        {mid rows' : List TaskCoord} → AgentRun rows mid → AgentStep mid rows' → AgentRun rows rows'

  record IsSoundPatch (c : AgentCoord) : Type 0 where
    pub range : validate_coord c.x c.y ≡ none
    pub short : bytes c.rationale ≤ 120

  coord_from_patch-IsSoundPatch :
      (patch : Fields) (c : AgentCoord)
      → coord_from_patch int_value text_value patch ≡ some c
      → IsSoundPatch c
  unfolding coord_from_patch
  coord_from_patch-IsSoundPatch patch c h =
      elim (Bool-cases
        (not (has_field "uncertainty" patch) && not (has_field "contribution" patch))) [
          | inl e ↦ absurd (let h' = rw (coord_from_patch, e) at h in cc)
          | inr e ↦ subst IsSoundPatch (some_eq (rw (coord_from_patch, e) at h)) (record {
            range =
                both_ranges _ _
                  (coord_value_range int_value text_value (get_field "uncertainty" patch))
                  (coord_value_range int_value text_value (get_field "contribution" patch));
            short = bytes-truncate_rationale (text_value (get_field "coord_rationale" patch));
          })
        ]

  -- What one write keeps: the soundness of all rows, and every pinned row.
  record Keeps (rows rows' : List TaskCoord) : Type 0 where
    pub sound : All IsSoundCoord rows → All IsSoundCoord rows'
    pub pins : (c : TaskCoord) → In c rows → c.pinned ≡ true → In c rows'

  create_agent_coord-Keeps :
      (id : String) (now : ℕ) (user_id task_id : String) (c : AgentCoord)
      (rows rows' : List TaskCoord)
      → IsSoundPatch c
      → create_agent_coord id now user_id task_id c rows ≡ ok rows'
      → Keeps rows rows'
  unfolding create_agent_coord
  create_agent_coord-Keeps id now user_id task_id c rows rows' s h =
      let row =
        new_row id user_id task_id lens_research_risk c.x c.y "agent" false c.rationale now in
      subst (Keeps rows) (sym (create_coord-eq-ok row rows h)) (record {
        sound = λ a.
            All-snoc IsSoundCoord rows row a
              (record { range = s.range; short = s.short; own = λ p. cc });
        pins = λ d m p. In-snoc rows row d m;
      })

  overwrite-Keeps :
      (now : ℕ) (c : AgentCoord) (existing : TaskCoord) (rows rows' : List TaskCoord)
      → IsSoundPatch c
      → In existing rows
      → existing.pinned ≡ false
      → write_coord existing.id existing.revision (agent_row c existing.revision now) rows
        ≡ ok rows'
      → Keeps rows rows'
  overwrite-Keeps now c existing rows rows' s m n h =
      let (one, e) = write_coord-eq-ok existing.id existing.revision _ rows h in
      let p = is_coord_version existing.id existing.revision in
      let same : (x : TaskCoord) → In x rows → p x ≡ true → existing ≡ x =
        λ x k t. count_one p rows existing x one m (ground (arith, eq_refl existing.id)) k t in
      subst (Keeps rows) (sym e) (record {
        sound = λ a.
            All-update IsSoundCoord p (agent_row c existing.revision now) rows
              (λ x k t q. record {
                range = s.range;
                short = s.short;
                own = λ w. absurd (let g = ap (λ r. r.pinned) (same x k t) in cc);
              })
              a;
        pins = λ d k w. elim (Bool-cases (p d)) [
          | inr t ↦ In-update p (agent_row c existing.revision now) rows d k t
          | inl t ↦ absurd (let g = ap (λ r. r.pinned) (same d k t) in cc)
        ];
      })

  update_agent_coord-Keeps :
      (id : String) (now : ℕ) (user_id task_id : String) (c : AgentCoord)
      (rows rows' : List TaskCoord)
      → IsSoundPatch c
      → update_agent_coord id now user_id task_id c rows ≡ ok rows'
      → Keeps rows rows'
  unfolding update_agent_coord find_coord
  update_agent_coord-Keeps id now user_id task_id c rows rows' s h =
      elim (Option-cases (find_coord user_id task_id lens_research_risk rows)) [
        | inl f ↦
            create_agent_coord-Keeps id now user_id task_id c rows rows' s
              (rw (update_agent_coord, f) at h)
        | inr (existing, f) ↦ elim (Bool-cases existing.pinned) [
          | inl t ↦
              subst (Keeps rows) (ok_eq (rw (update_agent_coord, f, t) at h))
                (record { sound = λ a. a; pins = λ d m p. m })
          | inr t ↦
              overwrite-Keeps now c existing rows rows' s
                (In-found (is_coord_of user_id task_id lens_research_risk) rows f).0 t
                (rw (update_agent_coord, f, t) at h)
        ]
      ]

  AgentStep-Keeps : {rows rows' : List TaskCoord} → AgentStep rows rows' → Keeps rows rows'
  AgentStep-Keeps {rows = rows} {rows' = rows'} (creates id now user_id task_id patch c e h) =
      create_agent_coord-Keeps id now user_id task_id c rows rows'
        (coord_from_patch-IsSoundPatch patch c e) h
  AgentStep-Keeps {rows = rows} {rows' = rows'} (updates id now user_id task_id patch c e h) =
      update_agent_coord-Keeps id now user_id task_id c rows rows'
        (coord_from_patch-IsSoundPatch patch c e) h

  -- However often an agent writes coordinates, and whatever its patches hold, every pinned coordinate stays
  -- as it is, every coordinate stays in range with a rationale of at most 120 bytes, and no pin comes from
  -- the agent.
  pub AgentRun-pinned :
      {rows rows' : List TaskCoord}
      → AgentRun rows rows'
      → All IsSoundCoord rows
      → All IsSoundCoord rows' × ((c : TaskCoord) → In c rows → c.pinned ≡ true → In c rows')
  AgentRun-pinned start a = (a, λ c m p. m)
  AgentRun-pinned (then_step r s) a =
      let (b, f) = AgentRun-pinned r a in
      let k = AgentStep-Keeps s in (k.sound b, λ c m p. k.pins c (f c m p) p)
