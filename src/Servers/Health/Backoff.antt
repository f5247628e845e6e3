-- ===== src/Servers/Health/Backoff.antt =====
-- The back-off of `ServerHealth` of network/server_list.rs.
use electrum_sv_mc.Prelude.{ℕ, ◌+◌, ◌%◌, ◌^◌, ◌≤◌, ◌≡◌}
use electrum_sv_mc.Prelude.{◌↔◌, true}
use electrum_sv_mc.Prelude.{arith}
use electrum_sv_mc.Prelude.{leb→le, le→leb}
use electrum_sv_mc.Servers.Health.{ServerHealth, backoff_duration, record_failure, ban, is_eligible}

backoff_duration_bound : (n : ℕ) → backoff_duration n ≤ 300
unfolding backoff_duration
backoff_duration_bound n = ground arith

-- After one failure more, whatever the health was before, a server is eligible exactly when the back-off of
-- the new number of failures has passed, and so 300 seconds later at the latest; a ban that came
-- before it is lifted by then.
pub record_failure-is_eligible :
    (updated now later : ℕ) (h : ServerHealth)
    → ((is_eligible later (record_failure updated now h) ≡ true)
        ↔ (now + backoff_duration ((h.consecutive_failures + 1) % 2 ^ 32) ≤ later))
      × (now + 300 ≤ later → is_eligible later (record_failure updated now (ban updated h)) ≡ true)
unfolding is_eligible record_failure ban
record_failure-is_eligible updated now later h =
    let n = (h.consecutive_failures + 1) % 2 ^ 32 in
    (
      (leb→le (now + backoff_duration n) later, le→leb (now + backoff_duration n) later),
      λ late. le→leb (now + backoff_duration n) later (omega (arith, backoff_duration_bound n)),
    )
