-- ===== src/Throttle/Examples.antt =====
-- Tests of the throttle on concrete attempts, and its theorems at them.
use fast_task.Base.{
  ℕ, ◌+◌, ◌≤◌, ◌*◌, min, String, true, false, Option, none, some, List, [], ◌∷◌, ◌≡◌, refl, arith,
  inl,
}
use fast_task.Throttle.{
  ThrottleEntry, LoginThrottle, ThrottleKey, rule_account_client, begin, sweep, succeed, charged,
  throttle_keys, second, throttle_base_block,
}
use fast_task.Throttle.Blocked.{begin-blocked}
use fast_task.Throttle.Bounds.{AllTame, charged-bounds, begin-succeed-AllTame}

abbrev same : String → String
same text = text

abbrev blocking : ThrottleEntry
blocking = record {
  failures = 5;
  window_start = 100 * second;
  blocked_until = 140 * second;
  last_seen = 110 * second;
}

abbrev key : ThrottleKey
key = record { key = "ac:10.0.0.1\0ann"; rule = rule_account_client }

abbrev busy : LoginThrottle
busy = record { entries = ("ac:10.0.0.1\0ann", blocking) ∷ []; last_sweep = 90 * second }

begin-blocked_example :
    begin same (120 * second) "ann" "10.0.0.1" busy ≡ (none, sweep (120 * second) busy)
unfolding throttle_keys fast_task.Base.trim_space
begin-blocked_example =
    begin-blocked same (120 * second) "ann" "10.0.0.1" busy key blocking (inl refl) refl refl

charged-bounds_example :
    (120 * second + min throttle_base_block rule_account_client.max_block
      ≤ (charged (120 * second) rule_account_client (some blocking)).blocked_until)
    × ((charged (120 * second) rule_account_client (some blocking)).blocked_until
        ≤ 120 * second + rule_account_client.max_block)
unfolding charged
charged-bounds_example =
    charged-bounds (120 * second) rule_account_client (some blocking) (omega arith)

busy-AllTame : AllTame (120 * second) busy.entries
busy-AllTame = ((record { counted = omega arith; short = omega arith }, omega arith), tt)

begin-succeed-AllTame_example :
    AllTame (120 * second) (begin same (120 * second) "bob" "10.0.0.2" busy).1.entries
    × AllTame (120 * second) (succeed (key ∷ []) busy.entries)
begin-succeed-AllTame_example =
    begin-succeed-AllTame same (120 * second) "bob" "10.0.0.2" busy (key ∷ []) busy-AllTame

refunds : succeed (key ∷ []) busy.entries ≡ []
unfolding succeed
refunds = refl
