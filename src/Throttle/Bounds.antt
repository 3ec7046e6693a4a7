-- ===== src/Throttle/Bounds.antt =====
-- How long a key can be blocked, and what every entry of the map satisfies.
use fast_task.Base.{
  ℕ, zero, suc, ◌+◌, ◌-◌, ◌*◌, ◌/◌, ◌^◌, ◌≤◌, min, String, Bool, false, not, ◌&&◌, Option, none,
  some, List, [], ◌∷◌, ◌≡◌, arith, inl, inr, str_eq, Bool-cases, Option-cases, if◌then◌else◌, keep,
  length, ltb, leb, any, All,
}
use fast_task.Tasks.Model.{Dict, find}
use fast_task.Throttle.{
  ThrottleEntry, LoginThrottle, ThrottleKey, ThrottleRule, put, shed, sweep, is_blocked, is_idle,
  blocks, begin, throttle_keys, throttle_max_entries, minute, charged, block_until, found_or_new,
  charge_all, refund, succeed, is_rule_account_client, throttle_base_block,
}

-- An entry counts at least one failure, and blocks for at most a quarter of an hour after the last one.
pub record IsTame (e : ThrottleEntry) : Type 0 where
  pub counted : 1 ≤ e.failures
  pub short : e.blocked_until ≤ e.last_seen + 15 * minute

pos_power : (n : ℕ) → 1 ≤ 2 ^ n
pos_power zero = omega arith
pos_power (suc n) = omega (arith, pos_power n)

block_until-bounds :
    (now : ℕ) (rule : ThrottleRule) (f old : ℕ)
    → rule.threshold ≤ f
    → (now + min throttle_base_block rule.max_block ≤ block_until now rule f old)
      × (block_until now rule f old ≤ now + rule.max_block)
unfolding block_until
block_until-bounds now rule f old h = ground (arith, h, pos_power (min (f - rule.threshold) 10))

-- A charge from the threshold on blocks the key for at least the rule's cap or half a minute, whichever
-- is less, and for no longer than the cap.
pub charged-bounds :
    (now : ℕ) (rule : ThrottleRule) (found : Option ThrottleEntry)
    → rule.threshold ≤ (charged now rule found).failures
    → (now + min throttle_base_block rule.max_block ≤ (charged now rule found).blocked_until)
      × ((charged now rule found).blocked_until ≤ now + rule.max_block)
unfolding charged
charged-bounds now rule found h =
    block_until-bounds now rule (charged now rule found).failures
      (found_or_new now found).blocked_until h

block_until-le :
    (now : ℕ) (rule : ThrottleRule) (f old bound : ℕ)
    → rule.max_block ≤ 15 * minute
    → old ≤ bound
    → bound ≤ now + 15 * minute
    → block_until now rule f old ≤ now + 15 * minute
unfolding block_until
block_until-le now rule f old bound h k l = ground (arith, h, k, l)

-- The entry found has been seen by now, if there is one.
abbrev pub IsPast : ℕ → Option ThrottleEntry → Type 0
IsPast now none = Unit
IsPast now (some e) = IsTame e × (e.last_seen ≤ now)

charged-IsTame :
    (now : ℕ) (rule : ThrottleRule) (found : Option ThrottleEntry)
    → rule.max_block ≤ 15 * minute
    → IsPast now found
    → IsTame (charged now rule found) × ((charged now rule found).last_seen ≤ now)
unfolding charged
charged-IsTame now rule none m p = (
  record {
    counted = omega arith;
    short = block_until-le now rule _ 0 0 m (omega arith) (omega arith);
  },
  omega arith,
)
charged-IsTame now rule (some e) m p = (
  record {
    counted = omega arith;
    short =
        block_until-le now rule _ e.blocked_until (e.last_seen + 15 * minute) m p.0.short
          (omega (arith, p.1));
  },
  omega arith,
)

-- Every entry is tame and was seen by `now`.
abbrev pub AllTame : ℕ → Dict ThrottleEntry → Type 0
AllTame now es = All (λ e. IsTame e.1 × (e.1.last_seen ≤ now)) es

find-AllTame :
    (now : ℕ) (key : String) (es : Dict ThrottleEntry) → AllTame now es → IsPast now (find key es)
find-AllTame now key [] a = tt
find-AllTame now key ((k, e) ∷ es) a = elim (Bool-cases (str_eq k key)) [
  | inl h ↦ rw h a.0
  | inr h ↦ rw h (find-AllTame now key es a.1)
]

put-AllTame :
    (now : ℕ) (key : String) (entry : ThrottleEntry) (es : Dict ThrottleEntry)
    → IsTame entry × (entry.last_seen ≤ now)
    → AllTame now es
    → AllTame now (put key entry es)
put-AllTame now key entry [] h a = (h, tt)
put-AllTame now key entry ((k, e) ∷ es) h a = elim (Bool-cases (str_eq k key)) [
  | inl p ↦ rw p (h, a.1)
  | inr p ↦ rw p (a.0, put-AllTame now key entry es h a.1)
]

keep-AllTame :
    (now : ℕ) (p : String × ThrottleEntry → Bool) (es : Dict ThrottleEntry)
    → AllTame now es
    → AllTame now (keep p es)
keep-AllTame now p [] a = tt
keep-AllTame now p (e ∷ es) a = elim (Bool-cases (p e)) [
  | inl h ↦ rw h (a.0, keep-AllTame now p es a.1)
  | inr h ↦ rw h (keep-AllTame now p es a.1)
]

shed-AllTame :
    (now size : ℕ) (es : Dict ThrottleEntry) → AllTame now es → AllTame now (shed now size es)
unfolding shed
shed-AllTame now size [] a = tt
shed-AllTame now size ((k, e) ∷ es) a =
    elim (Bool-cases (ltb size (throttle_max_entries * 9 / 10))) [
      | inl f ↦ rw (shed, f) a
      | inr f ↦ elim (Bool-cases (is_blocked now e)) [
        | inl i ↦ rw (shed, f, i) (a.0, shed-AllTame now size es a.1)
        | inr i ↦ rw (shed, f, i) (shed-AllTame now (size - 1) es a.1)
      ]
    ]

sweep-AllTame :
    (now : ℕ) (t : LoginThrottle) → AllTame now t.entries → AllTame now (sweep now t).entries
unfolding sweep
sweep-AllTame now t a =
    elim (Bool-cases
      (ltb (length t.entries) throttle_max_entries && ltb (now - t.last_sweep) minute)) [
        | inl c ↦ rw (sweep, c) a
        | inr c ↦
            let live = keep-AllTame now (λ e. not (is_idle now e.1)) t.entries a in
            elim (Bool-cases
              (ltb (length (keep (λ e. not (is_idle now e.1)) t.entries)) throttle_max_entries)) [
                | inl d ↦ rw (sweep, c, d) live
                | inr d ↦
                    rw (sweep, c, d)
                      (shed-AllTame now (length (keep (λ e. not (is_idle now e.1)) t.entries))
                        (keep (λ e. not (is_idle now e.1)) t.entries) live)
              ]
      ]

charge_all-AllTame :
    (now : ℕ) (ks : List ThrottleKey) (es : Dict ThrottleEntry)
    → All (λ k. k.rule.max_block ≤ 15 * minute) ks
    → AllTame now es
    → AllTame now (charge_all now ks es)
unfolding charge_all
charge_all-AllTame now [] es m a = a
charge_all-AllTame now (k ∷ ks) es m a =
    charge_all-AllTame now ks (put k.key (charged now k.rule (find k.key es)) es) m.1 (
      put-AllTame now k.key (charged now k.rule (find k.key es)) es
        (charged-IsTame now k.rule (find k.key es) m.0 (find-AllTame now k.key es a)) a)

refund-AllTame :
    (now : ℕ) (k : ThrottleKey) (es : Dict ThrottleEntry)
    → AllTame now es
    → AllTame now (refund k es)
unfolding refund
refund-AllTame now k es a = elim (Option-cases (find k.key es)) [
  | inl e ↦ rw (refund, e) a
  | inr (entry, e) ↦ elim (Bool-cases (is_rule_account_client k.rule)) [
    | inl r ↦ rw (refund, e, r) (keep-AllTame now (λ x. not (str_eq x.0 k.key)) es a)
    | inr r ↦ elim (Bool-cases (leb (entry.failures - 1) 0)) [
      | inl z ↦ rw (refund, e, r, z) (keep-AllTame now (λ x. not (str_eq x.0 k.key)) es a)
      | inr z ↦
          rw (refund, e, r, z)
            (put-AllTame now k.key _ es (refunded entry (rw e at (find-AllTame now k.key es a)) z)
              a)
    ]
  ]
]
  where
    refunded :
        (entry : ThrottleEntry)
        → IsTame entry × (entry.last_seen ≤ now)
        → leb (entry.failures - 1) 0 ≡ false
        → IsTame (record entry {
          failures = entry.failures - 1;
          blocked_until =
              if ltb (entry.failures - 1) k.rule.threshold then 0 else entry.blocked_until;
        })
          × (entry.last_seen ≤ now)
    refunded entry p z =
        (record { counted = ground (arith, z); short = ground (arith, p.0.short) }, p.1)

succeed-AllTame :
    (now : ℕ) (ks : List ThrottleKey) (es : Dict ThrottleEntry)
    → AllTame now es
    → AllTame now (succeed ks es)
unfolding succeed
succeed-AllTame now [] es a = a
succeed-AllTame now (k ∷ ks) es a = succeed-AllTame now ks (refund k es) (refund-AllTame now k es a)

capped :
    (to_lower : String → String) (identifier client : String)
    → All (λ k. k.rule.max_block ≤ 15 * minute) (throttle_keys to_lower identifier client)
unfolding throttle_keys
capped to_lower identifier client = elim (Bool-cases (str_eq client "")) [
  | inl e ↦ rw e (omega arith, (omega arith, tt))
  | inr e ↦ rw e (omega arith, (omega arith, (omega arith, tt)))
]

-- Attempts, swept entries and refunds keep every entry tame: it counts a failure, was seen by the
-- present time, and never blocks for more than a quarter of an hour after it was last charged.
pub begin-succeed-AllTame :
    (to_lower : String → String) (now : ℕ) (identifier client : String) (t : LoginThrottle)
    (ticket : List ThrottleKey)
    → AllTame now t.entries
    → AllTame now (begin to_lower now identifier client t).1.entries
      × AllTame now (succeed ticket t.entries)
unfolding begin
begin-succeed-AllTame to_lower now identifier client t ticket a =
    let swept = sweep-AllTame now t a in
    (
      elim (Bool-cases
          (any (blocks now (sweep now t).entries) (throttle_keys to_lower identifier client))) [
            | inl e ↦ rw (begin, e) swept
            | inr e ↦
                rw (begin, e)
                  (charge_all-AllTame now (throttle_keys to_lower identifier client)
                    (sweep now t).entries (capped to_lower identifier client) swept)
          ],
      succeed-AllTame now ticket t.entries a,
    )
