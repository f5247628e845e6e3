-- ===== src/Servers/Health.antt =====
-- `ServerHealth` of network/server_list.rs. Times are seconds; the readings of the clock, and the moving
-- average of floating point numbers, are arguments.
pub mod Backoff
use electrum_sv_mc.Prelude.{
  ℕ, zero, suc, ◌+◌, ◌-◌, ◌*◌, ◌/◌, ◌%◌, ◌^◌, ◌≤◌, ◌<◌, ◌≡◌, refl, sym, ap, ◌∙◌,
}
use electrum_sv_mc.Prelude.{
  ◌≢◌, ◌↔◌, ◌⊎◌, inl, inr, Bool, true, false, ◌&&◌, ◌||◌, not, Option, none, some,
}
use electrum_sv_mc.Prelude.{List, [], ◌∷◌, ◌++◌, map, arith, ltb, leb, ◌==◌, if◌then◌else◌}
use electrum_sv_mc.Prelude.{
  Result, ok, err, ◌>>=◌, ok_or, Result-cases, >>=-eq-ok, Bool-cases, Option-cases, if-elim,
}
use electrum_sv_mc.Prelude.{ltb→lt, lt→ltb, leb→le, le→leb, ltb-false, leb-false, ==_iff}
use electrum_sv_mc.Prelude.{length, get_elem?, set, take, drop, replicate, sum_of, All}
use electrum_sv_mc.Prelude.{
  length-append, sum_of-append, take-append-drop, length-take, length-drop, sum_of-take_le,
}
use electrum_sv_mc.Prelude.Word.{IsU64, wrap, wrap_small, checked_add}

pub data ServerStatus : Type 0 where
  unknown connected disconnected failed banned : ServerStatus

pub record ServerHealth : Type 0 where
  pub status : ServerStatus
  pub consecutive_failures : ℕ
  pub last_updated : ℕ
  pub retry_after : Option ℕ
  pub avg_latency_ms : Option ℕ
  pub successful_requests : ℕ
  pub failed_requests : ℕ

-- ServerHealth::new
unfoldable pub new_health : ℕ → ServerHealth
new_health now = record {
  status = unknown;
  consecutive_failures = 0;
  last_updated = now;
  retry_after = none;
  avg_latency_ms = none;
  successful_requests = 0;
  failed_requests = 0;
}

unfoldable pub backoff_duration : ℕ → ℕ
backoff_duration failures =
    if failures == 0
    then 0
    else if failures == 1
    then 5
    else if failures == 2
    then 10
    else if failures == 3
    then 30
    else if leb failures 9
    then 60
    else 300

abbrev pub average : (ℕ → ℕ → ℕ) → Option ℕ → ℕ → ℕ
average moving none latency_ms = latency_ms
average moving (some prev) latency_ms = moving prev latency_ms

unfoldable pub record_success : (ℕ → ℕ → ℕ) → ℕ → ℕ → ServerHealth → ServerHealth
record_success moving now latency_ms h = record h {
  status = connected;
  consecutive_failures = 0;
  last_updated = now;
  retry_after = none;
  successful_requests = wrap (h.successful_requests + 1);
  avg_latency_ms = some (average moving h.avg_latency_ms latency_ms);
}

unfoldable pub record_failure : ℕ → ℕ → ServerHealth → ServerHealth
record_failure updated now h =
    let failures = (h.consecutive_failures + 1) % 2 ^ 32 in
    record h {
      consecutive_failures = failures;
      failed_requests = wrap (h.failed_requests + 1);
      last_updated = updated;
      status = failed;
      retry_after = some (now + backoff_duration failures);
    }

unfoldable pub ban : ℕ → ServerHealth → ServerHealth
ban now h = record h { status = banned; last_updated = now; retry_after = none }

unfoldable pub disconnect : ℕ → ServerHealth → ServerHealth
disconnect now h = record h { status = disconnected; last_updated = now; retry_after = none }

abbrev pub backoff_expired : ℕ → Option ℕ → Bool
backoff_expired now none = true
backoff_expired now (some when) = leb when now

abbrev pub eligible_in : ServerStatus → ℕ → Option ℕ → Bool
eligible_in banned now retry_after = false
eligible_in connected now retry_after = false
eligible_in failed now retry_after = backoff_expired now retry_after
eligible_in disconnected now retry_after = true
eligible_in unknown now retry_after = true

unfoldable pub is_eligible : ℕ → ServerHealth → Bool
is_eligible now h = eligible_in h.status now h.retry_after
