-- ===== src/Throttle/Blocked.antt =====
-- A blocked key refuses every attempt.
use fast_task.Base.{
  ℕ, ◌-◌, ◌*◌, ◌/◌, String, Bool, true, false, not, ◌&&◌, none, some, List, [], ◌∷◌, ◌≡◌, refl,
  arith, inl, inr, str_eq, Bool-cases, some_eq, keep, length, ltb, any, In, sym, subst,
}
use fast_task.Tasks.Model.{Dict, find}
use fast_task.Throttle.{
  ThrottleEntry, LoginThrottle, ThrottleKey, shed, sweep, is_blocked, is_idle, blocks, begin,
  throttle_keys, throttle_max_entries, minute,
}

module _ (now : ℕ) (key : String) (entry : ThrottleEntry) (b : is_blocked now entry ≡ true) where
  same_blocked : (e : ThrottleEntry) → some e ≡ some entry → is_blocked now e ≡ true
  same_blocked e h = subst (λ x. is_blocked now x ≡ true) (sym (some_eq h)) b

  not_idle : (e : ThrottleEntry) → is_blocked now e ≡ true → is_idle now e ≡ false
  not_idle e h = ground (arith, h)

  find-live :
      (es : Dict ThrottleEntry)
      → find key es ≡ some entry
      → find key (keep (λ e. not (is_idle now e.1)) es) ≡ some entry
  find-live [] h = cc
  find-live ((k, e) ∷ es) h = elim (Bool-cases (str_eq k key)) [
    | inl p ↦ let q = rw p at h in rw (not_idle e (same_blocked e q), p) q
    | inr p ↦
        let rest = find-live es (rw p at h) in
        elim (Bool-cases (is_idle now e)) [ inl i ↦ rw i rest | inr i ↦ rw (i, p) rest ]
  ]

  find-shed :
      (size : ℕ) (es : Dict ThrottleEntry)
      → find key es ≡ some entry
      → find key (shed now size es) ≡ some entry
  unfolding shed
  find-shed size [] h = cc
  find-shed size ((k, e) ∷ es) h = elim (Bool-cases (ltb size (throttle_max_entries * 9 / 10))) [
    | inl f ↦ rw (shed, f) h
    | inr f ↦ elim (Bool-cases (str_eq k key)) [
      | inl p ↦ let q = rw p at h in rw (shed, f, same_blocked e q, p) q
      | inr p ↦ elim (Bool-cases (is_blocked now e)) [
        | inl i ↦ rw (shed, f, i, p) (find-shed size es (rw p at h))
        | inr i ↦ rw (shed, f, i) (find-shed (size - 1) es (rw p at h))
      ]
    ]
  ]

  -- A sweep keeps every entry that is still blocking.
  pub find-sweep :
      (t : LoginThrottle)
      → find key t.entries ≡ some entry
      → find key (sweep now t).entries ≡ some entry
  unfolding sweep
  find-sweep t h =
      elim (Bool-cases
        (ltb (length t.entries) throttle_max_entries && ltb (now - t.last_sweep) minute)) [
          | inl c ↦ rw (sweep, c) h
          | inr c ↦
              elim (Bool-cases
                (ltb (length (keep (λ e. not (is_idle now e.1)) t.entries)) throttle_max_entries)) [
                  | inl d ↦ rw (sweep, c, d) (find-live t.entries h)
                  | inr d ↦
                      rw (sweep, c, d)
                        (find-shed (length (keep (λ e. not (is_idle now e.1)) t.entries))
                          (keep (λ e. not (is_idle now e.1)) t.entries) (find-live t.entries h))
                ]
        ]

any-true :
    (p : ThrottleKey → Bool) (ks : List ThrottleKey) (k : ThrottleKey)
    → In k ks
    → p k ≡ true
    → any p ks ≡ true
any-true p [] k m h = absurd m
any-true p (x ∷ ks) k (inl q) h = ground (arith, subst (λ y. p y ≡ true) q h)
any-true p (x ∷ ks) k (inr m) h = ground (arith, any-true p ks k m h)

-- While one of an attempt's keys is blocked, the attempt is refused and charged to no key; sweeping
-- idle and surplus entries first never lifts the block.
pub begin-blocked :
    (to_lower : String → String) (now : ℕ) (identifier client : String) (t : LoginThrottle)
    (k : ThrottleKey) (entry : ThrottleEntry)
    → In k (throttle_keys to_lower identifier client)
    → find k.key t.entries ≡ some entry
    → is_blocked now entry ≡ true
    → begin to_lower now identifier client t ≡ (none, sweep now t)
unfolding begin
begin-blocked to_lower now identifier client t k entry m h b =
    rw
      (
        begin,
        any-true (blocks now (sweep now t).entries) (throttle_keys to_lower identifier client) k m
            (rw (blocks, find-sweep now k.key entry b t h) b),
      )
      refl
