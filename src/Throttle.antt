-- ===== src/Throttle.antt =====
-- internal/platform/auth/throttle.go: the defence against guessing passwords. Times are nanoseconds, 0 is
-- Go's zero time; a subtraction stops at 0, which the tests for "longer than" do not tell from a negative
-- duration. The map of entries is a list, and the order of its iteration is the list's.
pub mod Blocked
pub mod Bounds
mod Examples
use Prim.Native.String.{◌++◌ as ◌<>◌}
use fast_task.Base.{
  ℕ, zero, suc, ◌+◌, ◌-◌, ◌*◌, ◌/◌, ◌^◌, min, String, Bool, true, false, not, ◌&&◌, ◌||◌, Option,
  none, some, List, [], ◌∷◌, if◌then◌else◌, str_eq, trim_space, ltb, leb, ◌==◌, any, keep, length,
}
use fast_task.Tasks.Model.{Dict, find}

pub record ThrottleEntry : Type 0 where
  pub failures : ℕ
  pub window_start : ℕ
  pub blocked_until : ℕ
  pub last_seen : ℕ

pub record LoginThrottle : Type 0 where
  pub entries : Dict ThrottleEntry
  pub last_sweep : ℕ

pub record ThrottleRule : Type 0 where
  pub key_prefix : String
  pub threshold : ℕ
  pub max_block : ℕ

abbrev pub second : ℕ
second = 1000000000

abbrev pub minute : ℕ
minute = 60 * second

abbrev pub rule_account_client : ThrottleRule
rule_account_client = record { key_prefix = "ac:"; threshold = 5; max_block = 15 * minute }

abbrev pub rule_client : ThrottleRule
rule_client = record { key_prefix = "c:"; threshold = 50; max_block = 15 * minute }

abbrev pub rule_account : ThrottleRule
rule_account = record { key_prefix = "a:"; threshold = 50; max_block = 2 * minute }

abbrev pub throttle_window : ℕ
throttle_window = 15 * minute

abbrev pub throttle_base_block : ℕ
throttle_base_block = 30 * second

abbrev pub throttle_idle : ℕ
throttle_idle = 30 * minute

abbrev pub throttle_max_entries : ℕ
throttle_max_entries = 50000

abbrev pub new_login_throttle : LoginThrottle
new_login_throttle = record { entries = []; last_sweep = 0 }

pub record ThrottleKey : Type 0 where
  pub key : String
  pub rule : ThrottleRule

abbrev pub is_blocked : ℕ → ThrottleEntry → Bool
is_blocked now entry = ltb now entry.blocked_until

-- Go's assignment to a map, and its `delete`.
abbrev pub put : String → ThrottleEntry → Dict ThrottleEntry → Dict ThrottleEntry
put key entry [] = (key, entry) ∷ []
put key entry ((k, e) ∷ rest) =
    if str_eq k key then (key, entry) ∷ rest else (k, e) ∷ put key entry rest

abbrev pub remove : String → Dict ThrottleEntry → Dict ThrottleEntry
remove key entries = keep (λ e. not (str_eq e.0 key)) entries

-- The loop that sheds unblocked entries while `size` entries are left, 45,000 or more.
unfoldable pub shed : ℕ → ℕ → Dict ThrottleEntry → Dict ThrottleEntry
shed now size [] = []
shed now size ((k, e) ∷ rest) =
    let without = shed now (size - 1) rest in
    let beside = shed now size rest in
    if ltb size (throttle_max_entries * 9 / 10)
    then (k, e) ∷ rest
    else if is_blocked now e
    then (k, e) ∷ beside
    else without

abbrev pub is_idle : ℕ → ThrottleEntry → Bool
is_idle now entry = ltb throttle_idle (now - entry.last_seen) && not (is_blocked now entry)

unfoldable pub sweep : ℕ → LoginThrottle → LoginThrottle
unfolding shed
sweep now t =
    if ltb (length t.entries) throttle_max_entries && ltb (now - t.last_sweep) minute
    then t
    else let live = keep (λ e. not (is_idle now e.1)) t.entries in
      record {
        entries =
            if ltb (length live) throttle_max_entries then live else shed now (length live) live;
        last_sweep = now;
      }

abbrev pub found_or_new : ℕ → Option ThrottleEntry → ThrottleEntry
found_or_new now none = record {
  failures = 0;
  window_start = now;
  blocked_until = 0;
  last_seen = 0;
}
found_or_new now (some e) = e

-- The end of the block of a key with so many failures: half a minute at the threshold, doubled by each
-- further failure up to the cap.
unfoldable pub block_until : ℕ → ThrottleRule → ℕ → ℕ → ℕ
block_until now rule failures old =
    if leb rule.threshold failures
    then now + min (throttle_base_block * 2 ^ min (failures - rule.threshold) 10) rule.max_block
    else old

-- An entry is charged one failure: its window starts anew once it has passed, and from the threshold on
-- it is blocked.
unfoldable pub charged : ℕ → ThrottleRule → Option ThrottleEntry → ThrottleEntry
unfolding block_until
charged now rule found =
    let entry = found_or_new now found in
    let stale = ltb throttle_window (now - entry.window_start) in
    let failures = suc (if stale then 0 else entry.failures) in
    record {
      failures = failures;
      window_start = if stale then now else entry.window_start;
      blocked_until = block_until now rule failures entry.blocked_until;
      last_seen = now;
    }

unfoldable pub charge_all : ℕ → List ThrottleKey → Dict ThrottleEntry → Dict ThrottleEntry
unfolding charged
charge_all now [] entries = entries
charge_all now (k ∷ ks) entries =
    charge_all now ks (put k.key (charged now k.rule (find k.key entries)) entries)

abbrev pub blocks : ℕ → Dict ThrottleEntry → ThrottleKey → Bool
blocks now entries k = elim (find k.key entries) [
  | none ↦ false
  | some entry ↦ is_blocked now entry
]

-- `to_lower` is Go's strings.ToLower.
module _ (to_lower : String → String) where
  unfoldable pub throttle_keys : String → String → List ThrottleKey
  throttle_keys identifier client =
      let account = to_lower (trim_space identifier) in
      let last = record { key = rule_account.key_prefix <> account; rule = rule_account } ∷ [] in
      record {
        key = rule_account_client.key_prefix <> client <> "\0" <> account;
        rule = rule_account_client;
      }
      ∷ (if str_eq client ""
          then last
          else record { key = rule_client.key_prefix <> client; rule = rule_client } ∷ last)

  -- The ticket of an attempt that may proceed, and the throttle after it.
  unfoldable pub begin :
      ℕ → String → String → LoginThrottle → Option (List ThrottleKey) × LoginThrottle
  unfolding sweep charge_all
  begin now identifier client t =
      let swept = sweep now t in
      let keys = throttle_keys identifier client in
      if any (blocks now swept.entries) keys
      then (none, swept)
      else (some keys, record swept { entries = charge_all now keys swept.entries })

abbrev pub is_rule_account_client : ThrottleRule → Bool
is_rule_account_client rule =
    str_eq rule.key_prefix rule_account_client.key_prefix
    && (rule.threshold == rule_account_client.threshold)
    && (rule.max_block == rule_account_client.max_block)

-- The refund of one key.
unfoldable pub refund : ThrottleKey → Dict ThrottleEntry → Dict ThrottleEntry
refund k entries = elim (find k.key entries) [
  | none ↦ entries
  | some entry ↦
      let failures = entry.failures - 1 in
      if is_rule_account_client k.rule
      then remove k.key entries
      else if leb failures 0
      then remove k.key entries
      else (put k.key
          (record entry {
            failures = failures;
            blocked_until = if ltb failures k.rule.threshold then 0 else entry.blocked_until;
          })
          entries)
]

unfoldable pub succeed : List ThrottleKey → Dict ThrottleEntry → Dict ThrottleEntry
unfolding refund
succeed [] entries = entries
succeed (k ∷ ks) entries = succeed ks (refund k entries)
