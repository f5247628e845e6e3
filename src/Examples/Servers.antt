-- ===== src/Examples/Servers.antt =====
-- Runs of the health of a server, network/server_list.rs.
use electrum_sv_mc.Prelude.{◌+◌, ◌%◌, ◌^◌, ◌≤◌, ◌≡◌}
use electrum_sv_mc.Prelude.{◌↔◌, true, none, some}
use electrum_sv_mc.Prelude.{[], ◌∷◌}
use electrum_sv_mc.Prelude.{All}
use electrum_sv_mc.Servers.Health.{new_health, backoff_duration, record_failure, ban, is_eligible}
use electrum_sv_mc.Servers.List.{
  ServerEntry, ServerList, empty_list, add_server, list_success, list_failure, select_best,
}
use electrum_sv_mc.Servers.List.Active.{
  IsWellFormed, Reach, start, add, success, failure, choose, Reach-IsWellFormed,
}
use electrum_sv_mc.Servers.List.Choice.{MayTry, IsIn, select_best_lem}
use electrum_sv_mc.Servers.Health.Backoff.{record_failure-is_eligible}

record_failure-is_eligible_example :
    ((is_eligible 500 (record_failure 100 100 (new_health 90)) ≡ true)
      ↔ (100 + backoff_duration (((new_health 90).consecutive_failures + 1) % 2 ^ 32) ≤ 500))
    × (100 + 300 ≤ 500 → is_eligible 500 (record_failure 100 100 (ban 100 (new_health 90))) ≡ true)
record_failure-is_eligible_example = record_failure-is_eligible 100 100 500 (new_health 90)

abbrev entry : ServerEntry
entry = record { host = 1 ∷ []; ssl_port = 50002; tcp_port = none; version = [] }

-- A server is added, connects and fails; another is added and is chosen.
abbrev history :
    Reach
      (λ avg ms. ms)
      (select_best 900 (
        add_server 600
          (record { host = 2 ∷ []; ssl_port = 50002; tcp_port = none; version = [] })
          (list_failure 500 500
            (1 ∷ [])
            (list_success (λ avg ms. ms) 200 (1 ∷ []) 40 (add_server 100 entry empty_list))))).0
history =
    choose 900
      (add 600 _ (failure 500 500 (1 ∷ []) (success 200 (1 ∷ []) 40 (add 100 entry start))))

Reach-IsWellFormed_example :
    IsWellFormed
      (select_best 900 (
        add_server 600
          (record { host = 2 ∷ []; ssl_port = 50002; tcp_port = none; version = [] })
          (list_failure 500 500
            (1 ∷ [])
            (list_success (λ avg ms. ms) 200 (1 ∷ []) 40 (add_server 100 entry empty_list))))).0
Reach-IsWellFormed_example = Reach-IsWellFormed (λ avg ms. ms) history

abbrev listed : ServerList
listed = add_server 100 entry empty_list

select_best_lem_example :
    (((select_best 900 listed).1 ≡ none) ↔ All (λ s. ¬ MayTry 900 listed.health s) listed.servers)
    × ((s : ServerEntry)
        → (select_best 900 listed).1 ≡ some s
        → IsIn listed.servers s × MayTry 900 listed.health s)
select_best_lem_example = select_best_lem 900 listed
