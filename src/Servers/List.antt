-- ===== src/Servers/List.antt =====
-- `ServerList` of network/server_list.rs. The reading of the clock is an argument, as is the moving average;
-- health is kept by host, in a map.
pub mod Active
pub mod Choice
use electrum_sv_mc.Prelude.{
  ℕ, zero, suc, ◌+◌, ◌-◌, ◌*◌, ◌/◌, ◌%◌, ◌^◌, ◌≤◌, ◌<◌, ◌≡◌, refl, sym, ap, ◌∙◌,
}
use electrum_sv_mc.Prelude.{
  ◌≢◌, ◌↔◌, ◌⊎◌, inl, inr, Bool, true, false, ◌&&◌, ◌||◌, not, Option, none, some,
}
use electrum_sv_mc.Prelude.{List, [], ◌∷◌, ◌++◌, map, arith, ltb, leb, ◌==◌, if◌then◌else◌}
use electrum_sv_mc.Prelude.{
  Result, ok, err, ◌>>=◌, ok_or, Result-cases, >>=-eq-ok, Bool-cases, Option-cases, if-elim,
}
use electrum_sv_mc.Prelude.{ltb→lt, lt→ltb, leb→le, le→leb, ltb-false, leb-false, ==_iff}
use electrum_sv_mc.Prelude.{length, get_elem?, set, take, drop, replicate, sum_of, All}
use electrum_sv_mc.Prelude.{
  length-append, sum_of-append, take-append-drop, length-take, length-drop, sum_of-take_le,
}
use electrum_sv_mc.Prelude.Word.{IsU64, wrap, wrap_small, checked_add}
use electrum_sv_mc.CoinChooser.Types.{Text}
use electrum_sv_mc.Prelude.Bytes.{bytes_eq}
use electrum_sv_mc.Prelude.Sort.{sort_by}
use electrum_sv_mc.Prelude.Assoc.{lookup, insert, take_out, adjust}
use electrum_sv_mc.Servers.Health
use electrum_sv_mc.Servers.Health.{
  ServerStatus, unknown, connected, disconnected, failed, banned, ServerHealth, new_health,
  is_eligible,
}

pub record ServerEntry : Type 0 where
  pub host : Text
  pub ssl_port : ℕ
  pub tcp_port : Option ℕ
  pub version : Text

abbrev pub HealthMap : Type 0
HealthMap = List (Text × ServerHealth)

pub record ServerList : Type 0 where
  pub servers : List ServerEntry
  pub health : HealthMap
  pub rr_counter : ℕ
  pub active_index : Option ℕ

-- ServerList::empty
unfoldable pub empty_list : ServerList
empty_list = record { servers = []; health = []; rr_counter = 0; active_index = none }

-- `if !self.health.contains_key(&server.host) { self.health.insert(…) }`
unfoldable pub ensure_health : ℕ → Text → HealthMap → HealthMap
ensure_health now host health = elim (lookup host health) [
  | none ↦ insert host (new_health now) health
  | some h ↦ health
]

-- ServerList::add
unfoldable pub add_server : ℕ → ServerEntry → ServerList → ServerList
add_server now server l = record l {
  servers = l.servers ++ (server ∷ []);
  health = ensure_health now server.host l.health;
}

-- `self.servers.retain(|s| s.host != host)`
unfoldable pub without_host : Text → List ServerEntry → List ServerEntry
without_host host [] = []
without_host host (s ∷ rest) =
    let later = without_host host rest in if bytes_eq s.host host then later else s ∷ later

-- What `remove` makes of the active index.
unfoldable pub clamp_index : List ServerEntry → Option ℕ → Option ℕ
clamp_index servers none = none
clamp_index [] (some idx) = none
clamp_index (s ∷ servers) (some idx) =
    if leb (length (s ∷ servers)) idx then some (length (s ∷ servers) - 1) else some idx

-- ServerList::remove
unfoldable pub remove_server : Text → ServerList → ServerList
remove_server host l = record l {
  servers = without_host host l.servers;
  health = take_out host l.health;
  active_index = clamp_index (without_host host l.servers) l.active_index;
}

abbrev pub element : List ServerEntry → Option ℕ → Option ServerEntry
element servers none = none
element servers (some i) = get_elem? servers i

-- ServerList::active
unfoldable pub active : ServerList → Option ServerEntry
active l = element l.servers l.active_index

abbrev pub status_of : Option ServerHealth → ServerStatus
status_of none = unknown
status_of (some h) = h.status

-- ServerList::status
unfoldable pub status : Text → ServerList → ServerStatus
status host l = status_of (lookup host l.health)

abbrev pub latency_of : Option ServerHealth → Option ℕ
latency_of none = none
latency_of (some h) = h.avg_latency_ms

-- ServerList::latency
unfoldable pub latency : Text → ServerList → Option ℕ
latency host l = latency_of (lookup host l.health)

abbrev pub one_later : Option ℕ → Option ℕ
one_later none = none
one_later (some i) = some (suc i)

-- `self.servers.iter().position(|s| s.host == host)`
unfoldable pub position : Text → List ServerEntry → Option ℕ
position host [] = none
position host (s ∷ rest) =
    let later = one_later (position host rest) in if bytes_eq s.host host then some 0 else later

abbrev pub or_else : Option ℕ → Option ℕ → Option ℕ
or_else none before = before
or_else (some i) before = some i

-- ServerList::record_success
unfoldable pub list_success : (ℕ → ℕ → ℕ) → ℕ → Text → ℕ → ServerList → ServerList
list_success moving now host latency_ms l = record l {
  health = adjust (Health.record_success moving now latency_ms) host l.health;
  active_index = or_else (position host l.servers) l.active_index;
}

-- `if let Some(idx) = self.active_index { … if server.host == host { self.active_index = None; } }`
unfoldable pub clear_active : Text → List ServerEntry → Option ℕ → Option ℕ
clear_active host servers none = none
clear_active host servers (some idx) = elim (get_elem? servers idx) [
  | none ↦ some idx
  | some server ↦ if bytes_eq server.host host then none else some idx
]

-- What `record_failure`, `ban` and `disconnect` have in common.
abbrev pub drop_active : (ServerHealth → ServerHealth) → Text → ServerList → ServerList
drop_active change host l = record l {
  health = adjust change host l.health;
  active_index = clear_active host l.servers l.active_index;
}

-- ServerList::record_failure
unfoldable pub list_failure : ℕ → ℕ → Text → ServerList → ServerList
list_failure updated now host l = drop_active (Health.record_failure updated now) host l

-- ServerList::ban
unfoldable pub list_ban : ℕ → Text → ServerList → ServerList
list_ban now host l = drop_active (Health.ban now) host l

-- ServerList::disconnect
unfoldable pub list_disconnect : ℕ → Text → ServerList → ServerList
list_disconnect now host l = drop_active (Health.disconnect now) host l

abbrev pub eligible_of : ℕ → Option ServerHealth → Bool
eligible_of now none = true
eligible_of now (some h) = is_eligible now h

-- `.filter(…)` of `select_best`
unfoldable pub eligible_servers : ℕ → HealthMap → List ServerEntry → List ServerEntry
eligible_servers now health [] = []
eligible_servers now health (s ∷ rest) =
    let later = eligible_servers now health rest in
    if eligible_of now (lookup s.host health) then s ∷ later else later

abbrev pub or_max : Option ℕ → ℕ
or_max none = 2 ^ 64 - 1
or_max (some ms) = ms

-- `sort_by_key(|(_, s)| …)`
abbrev pub latency_key : HealthMap → ServerEntry → ℕ
latency_key health s = or_max (latency_of (lookup s.host health))

abbrev pub by_latency : HealthMap → List ServerEntry → List ServerEntry
by_latency health = sort_by (λ a b. leb (latency_key health a) (latency_key health b))

-- The code of `select_best` behind the filter. The counter advances only if there is a choice.
unfoldable pub pick_best : ServerList → List ServerEntry → ServerList × Option ServerEntry
pick_best l [] = (l, none)
pick_best l (s ∷ rest) =
    let sorted = by_latency l.health (s ∷ rest) in
    (
      record l { rr_counter = wrap (l.rr_counter + 1) },
      get_elem? sorted (l.rr_counter % length sorted),
    )

-- ServerList::select_best
unfoldable pub select_best : ℕ → ServerList → ServerList × Option ServerEntry
select_best now l = pick_best l (eligible_servers now l.health l.servers)

pub record ServerCounts : Type 0 where
  pub unknown : ℕ
  pub connected : ℕ
  pub disconnected : ℕ
  pub failed : ℕ
  pub banned : ℕ

abbrev pub count_one : ServerStatus → ServerCounts → ServerCounts
count_one ServerStatus.unknown c = record c { unknown = c.unknown + 1 }
count_one ServerStatus.connected c = record c { connected = c.connected + 1 }
count_one ServerStatus.disconnected c = record c { disconnected = c.disconnected + 1 }
count_one ServerStatus.failed c = record c { failed = c.failed + 1 }
count_one ServerStatus.banned c = record c { banned = c.banned + 1 }

-- `for h in self.health.values() { … }`
unfoldable pub count_statuses : ServerCounts → HealthMap → ServerCounts
count_statuses counts [] = counts
count_statuses counts (e ∷ rest) = count_statuses (count_one ((e.1).status) counts) rest

-- ServerList::count_by_status
unfoldable pub count_by_status : ServerList → ServerCounts
count_by_status l =
    count_statuses (record { unknown = 0; connected = 0; disconnected = 0; failed = 0; banned = 0 })
      l.health

abbrev pub is_connected : ServerStatus → Bool
is_connected ServerStatus.connected = true
is_connected s = false

-- `self.health.values().any(…)`
unfoldable pub any_connected : HealthMap → Bool
any_connected [] = false
any_connected (e ∷ rest) = is_connected ((e.1).status) || any_connected rest

abbrev pub has_connected : ServerList → Bool
has_connected l = any_connected l.health

pub record ServerStatusInfo : Type 0 where
  pub host : Text
  pub ssl_port : ℕ
  pub tcp_port : Option ℕ
  pub version : Text
  pub status : ServerStatus
  pub avg_latency_ms : Option ℕ
  pub consecutive_failures : ℕ

abbrev pub failures_of : Option ServerHealth → ℕ
failures_of none = 0
failures_of (some h) = h.consecutive_failures

-- ServerList::list_with_status
unfoldable pub list_with_status : ServerList → List ServerStatusInfo
list_with_status l =
    map
      (λ s. record {
        host = s.host;
        ssl_port = s.ssl_port;
        tcp_port = s.tcp_port;
        version = s.version;
        status = status_of (lookup s.host l.health);
        avg_latency_ms = latency_of (lookup s.host l.health);
        consecutive_failures = failures_of (lookup s.host l.health);
      })
      l.servers
