-- ===== src/Servers/List/Active.antt =====
-- The active server of `ServerList` in network/server_list.rs, as its operations run one after the other.
use electrum_sv_mc.Prelude.{ℕ, suc, ◌<◌, ◌≡◌, refl, sym, ap, ◌∙◌}
use electrum_sv_mc.Prelude.{inl, inr, false, Option, none, some}
use electrum_sv_mc.Prelude.{List, [], ◌∷◌, ◌++◌, arith}
use electrum_sv_mc.Prelude.{Bool-cases, Option-cases}
use electrum_sv_mc.Prelude.{length, get_elem?, All, All-map, All-snoc, All-get, get_elem?-append}
use mathlib.Core.Option.{some-injective}
use electrum_sv_mc.Prelude.{length-append}
use mathlib.Core.Path.{subst}
use electrum_sv_mc.CoinChooser.Types.{Text}
use electrum_sv_mc.Prelude.Bytes.{bytes_eq, bytes_eq_iff, bytes_ne_sym}
use electrum_sv_mc.Prelude.Assoc.{
  lookup, adjust, adjusted, lookup-insert, lookup-insert_ne, lookup-adjust, lookup-adjust_ne,
}
use electrum_sv_mc.Servers.Health
use electrum_sv_mc.Servers.Health.{ServerStatus, connected, ServerHealth, new_health}
use electrum_sv_mc.Servers.List.{
  ServerEntry, HealthMap, ServerList, empty_list, ensure_health, add_server, element, active,
}
use electrum_sv_mc.Servers.List.{
  status_of, status, position, list_success, clear_active, drop_active,
}
use electrum_sv_mc.Servers.List.{
  list_failure, list_ban, list_disconnect, pick_best, select_best, eligible_servers,
}

-- A host has a health record.
abbrev pub IsKnown : HealthMap → ServerEntry → Type 0
IsKnown health s = (h : ServerHealth) × (lookup s.host health ≡ some h)

-- Every server has a health record, the active index is one of a server, and that server is connected.
pub record IsWellFormed (l : ServerList) : Type 0 where
  pub known : All (IsKnown l.health) l.servers
  pub in_range : (i : ℕ) → l.active_index ≡ some i → i < length l.servers
  pub is_connected : (s : ServerEntry) → active l ≡ some s → status s.host l ≡ connected

lookup-ensure_health :
    (now : ℕ) (host k : Text) (m : HealthMap) (h : ServerHealth)
    → lookup k m ≡ some h
    → lookup k (ensure_health now host m) ≡ some h
unfolding ensure_health
lookup-ensure_health now host k m h e = elim (Option-cases (lookup host m)) [
  | inl none_yet ↦
      let other : bytes_eq host k ≡ false = ground (arith, bytes_eq_iff host k) in
      rw (none_yet, ensure_health) (lookup-insert_ne host k (new_health now) m other ∙ e)
  | inr (x, there) ↦ rw (there, ensure_health) e
]

ensure_health-IsKnown :
    (now : ℕ) (s : ServerEntry) (m : HealthMap) → IsKnown (ensure_health now s.host m) s
unfolding ensure_health
ensure_health-IsKnown now s m = elim (Option-cases (lookup s.host m)) [
  | inl none_yet ↦
      rw (none_yet, ensure_health) (new_health now, lookup-insert s.host (new_health now) m)
  | inr (x, there) ↦ rw (there, ensure_health) (x, there)
]

-- Changing a record keeps every record there.
adjust-IsKnown :
    (change : ServerHealth → ServerHealth) (host : Text) (m : HealthMap) (s : ServerEntry)
    → IsKnown m s
    → IsKnown (adjust change host m) s
adjust-IsKnown change host m s (h, e) = elim (Bool-cases (bytes_eq host s.host)) [
  | inl hit ↦
      let same : host ≡ s.host = (bytes_eq_iff host s.host).0 hit in
      (change h, rw same (lookup-adjust change s.host m ∙ rw e))
  | inr miss ↦ (h, lookup-adjust_ne change host s.host m miss ∙ e)
]

step-All :
    (change : ServerHealth → ServerHealth) (host : Text) (m : HealthMap) (l : List ServerEntry)
    → All (IsKnown m) l
    → All (IsKnown (adjust change host m)) l
step-All change host m = All-map (λ s. adjust-IsKnown change host m s)

-- The position of a host is that of a server with this host.
position-host :
    (host : Text) (l : List ServerEntry) (i : ℕ)
    → position host l ≡ some i
    → (s : ServerEntry) × (get_elem? l i ≡ some s) × (s.host ≡ host) × (i < length l)
unfolding position
position-host host [] i e = absurd (cc e)
position-host host (x ∷ l) i e = elim (Bool-cases (bytes_eq x.host host)) [
  | inl hit ↦
      let first : 0 ≡ i = some-injective 0 i (rw (hit, position) at e) in
      rw (← first) (x, refl, (bytes_eq_iff x.host host).0 hit, omega arith)
  | inr miss ↦ elim (Option-cases (position host l)) [
    | inl nowhere ↦ absurd (cc (rw (miss, nowhere, position) at e))
    | inr (j, there) ↦
        let later : suc j ≡ i = some-injective (suc j) i (rw (miss, there, position) at e) in
        let (s, at, same, small) = position-host host l j there in
        rw (← later) (s, at, same, omega arith)
  ]
]

-- What is left of the active index points at a server of another host.
clear_active-other :
    (host : Text) (l : List ServerEntry) (a : Option ℕ) (i : ℕ)
    → clear_active host l a ≡ some i
    → (a ≡ some i) × ((s : ServerEntry) → get_elem? l i ≡ some s → bytes_eq host s.host ≡ false)
unfolding clear_active
clear_active-other host l none i e = absurd (cc e)
clear_active-other host l (some j) i e = elim (Option-cases (get_elem? l j)) [
  | inl out ↦
      let same : some j ≡ some i = rw (out, clear_active) at e in
      (same, λ s at. absurd (cc (out, same, at)))
  | inr (x, at_j) ↦ elim (Bool-cases (bytes_eq x.host host)) [
    | inl hit ↦ absurd (cc (rw (at_j, hit, clear_active) at e))
    | inr miss ↦
        let same : some j ≡ some i = rw (at_j, miss, clear_active) at e in
        (
          same,
          λ s at.
              let here : x ≡ s =
                some-injective x s
                  (sym at_j ∙ ap (λ (k : ℕ). get_elem? l k) (some-injective j i same) ∙ at) in
              bytes_ne_sym s.host host
                (subst (λ (y : ServerEntry). bytes_eq y.host host ≡ false) here miss),
        )
  ]
]

status-adjust_ne :
    (change : ServerHealth → ServerHealth) (host k : Text) (m : HealthMap)
    → bytes_eq host k ≡ false
    → status_of (lookup k (adjust change host m)) ≡ status_of (lookup k m)
status-adjust_ne change host k m ne = ap status_of (lookup-adjust_ne change host k m ne)

-- The server at the active index.
element-some :
    (l : List ServerEntry) (a : Option ℕ) (s : ServerEntry)
    → element l a ≡ some s
    → (i : ℕ) × (a ≡ some i) × (get_elem? l i ≡ some s)
element-some l none s e = absurd (cc e)
element-some l (some i) s e = (i, refl, e)

add_server-IsWellFormed :
    (now : ℕ) (x : ServerEntry) (l : ServerList)
    → IsWellFormed l
    → IsWellFormed (add_server now x l)
unfolding add_server active status
add_server-IsWellFormed now x l w = record {
  known =
      All-snoc (IsKnown (ensure_health now x.host l.health)) l.servers x
        (All-map (λ s k. (k.0, lookup-ensure_health now x.host s.host l.health (k.0) (k.1)))
          l.servers w.known)
        (ensure_health-IsKnown now x l.health);
  in_range = λ i e. omega (arith, w.in_range i e, length-append l.servers (x ∷ []));
  is_connected = λ s e.
      let (i, at, there) = element-some (l.servers ++ (x ∷ [])) l.active_index s e in
      let before : get_elem? l.servers i ≡ some s =
        sym (get_elem?-append l.servers (x ∷ []) i (w.in_range i at)) ∙ there in
      let (h, k) = All-get (IsKnown l.health) l.servers i s w.known before in
      ap status_of (lookup-ensure_health now x.host s.host l.health h k)
      ∙ sym (ap status_of k)
      ∙ w.is_connected s (ap (element l.servers) at ∙ before);
}

drop_active-IsWellFormed :
    (change : ServerHealth → ServerHealth) (host : Text) (l : ServerList)
    → IsWellFormed l
    → IsWellFormed (drop_active change host l)
unfolding active status
drop_active-IsWellFormed change host l w = record {
  known = step-All change host l.health l.servers w.known;
  in_range = λ i e. w.in_range i (clear_active-other host l.servers l.active_index i e).0;
  is_connected = λ s e.
      let (i, at, there) =
        element-some l.servers (clear_active host l.servers l.active_index) s e in
      let (before, other) = clear_active-other host l.servers l.active_index i at in
      status-adjust_ne change host s.host l.health (other s there)
      ∙ w.is_connected s (ap (element l.servers) before ∙ there);
}

-- The health of a host after a success, if it had any.
status-success :
    (moving : ℕ → ℕ → ℕ) (now ms : ℕ) (host : Text) (m : HealthMap) (h : ServerHealth)
    → lookup host m ≡ some h
    → status_of (lookup host (adjust (Health.record_success moving now ms) host m)) ≡ connected
status-success moving now ms host m h e =
    ap status_of (lookup-adjust (Health.record_success moving now ms) host m)
    ∙ ap (λ (o : Option ServerHealth). status_of (adjusted (Health.record_success moving now ms) o))
        e
    ∙ unfold Health.record_success in refl

-- A server that was connected, and is not that of the host, still is.
list_success-status :
    (moving : ℕ → ℕ → ℕ) (now ms : ℕ) (host : Text) (l : ServerList) (s : ServerEntry)
    → IsKnown l.health s
    → status s.host l ≡ connected
    → status_of (lookup s.host (adjust (Health.record_success moving now ms) host l.health))
      ≡ connected
unfolding status
list_success-status moving now ms host l s (h, k) c = elim (Bool-cases (bytes_eq host s.host)) [
  | inl hit ↦
      rw ((bytes_eq_iff host s.host).0 hit) (status-success moving now ms s.host l.health h k)
  | inr miss ↦ status-adjust_ne (Health.record_success moving now ms) host s.host l.health miss ∙ c
]

list_success-IsWellFormed :
    (moving : ℕ → ℕ → ℕ) (now : ℕ) (host : Text) (ms : ℕ) (l : ServerList)
    → IsWellFormed l
    → IsWellFormed (list_success moving now host ms l)
unfolding list_success active status
list_success-IsWellFormed moving now host ms l w = elim (Option-cases (position host l.servers)) [
  | inl nowhere ↦ rw nowhere (record {
    known = step-All (Health.record_success moving now ms) host l.health l.servers w.known;
    in_range = w.in_range;
    is_connected = λ s e.
        let (i, at, there) = element-some l.servers l.active_index s e in
        list_success-status moving now ms host l s
          (All-get (IsKnown l.health) l.servers i s w.known there) (w.is_connected s e);
  })
  | inr (j, found) ↦
      let (x, at, same, small) = position-host host l.servers j found in
      let (h, k) = All-get (IsKnown l.health) l.servers j x w.known at in
      rw found (record {
        known = step-All (Health.record_success moving now ms) host l.health l.servers w.known;
        in_range = λ i e. omega (arith, small, some-injective j i e);
        is_connected = λ s e.
            let here : x ≡ s = some-injective x s (sym at ∙ e) in
            rw (← here, same) (status-success moving now ms host l.health h (rw (← same) k));
      })
]

pick_best-IsWellFormed :
    (l : ServerList) (es : List ServerEntry) → IsWellFormed l → IsWellFormed (pick_best l es).0
unfolding pick_best active status
pick_best-IsWellFormed l [] w = w
pick_best-IsWellFormed l (s ∷ es) w = record {
  known = w.known;
  in_range = w.in_range;
  is_connected = w.is_connected;
}

-- The operations, in the order they are called in. (`remove` is left out: it moves the servers under
-- the active index.)
pub data Reach (moving : ℕ → ℕ → ℕ) : ServerList → Type 0 where
  start : Reach moving empty_list
  add :
      {l : ServerList} (now : ℕ) (s : ServerEntry)
      → Reach moving l
      → Reach moving (add_server now s l)
  success :
      {l : ServerList} (now : ℕ) (host : Text) (ms : ℕ)
      → Reach moving l
      → Reach moving (list_success moving now host ms l)
  failure :
      {l : ServerList} (updated now : ℕ) (host : Text)
      → Reach moving l
      → Reach moving (list_failure updated now host l)
  ban :
      {l : ServerList} (now : ℕ) (host : Text) → Reach moving l → Reach moving (list_ban now host l)
  disconnect :
      {l : ServerList} (now : ℕ) (host : Text)
      → Reach moving l
      → Reach moving (list_disconnect now host l)
  choose : {l : ServerList} (now : ℕ) → Reach moving l → Reach moving (select_best now l).0

-- However the operations other than `remove` follow each other, from an empty list, every server has a
-- health record, the active index is in range, and the active server is one whose status is connected.
pub Reach-IsWellFormed : (moving : ℕ → ℕ → ℕ) {l : ServerList} → Reach moving l → IsWellFormed l
unfolding empty_list active list_failure list_ban list_disconnect select_best
Reach-IsWellFormed moving start = record {
  known = tt;
  in_range = λ i e. absurd (cc e);
  is_connected = λ s e. absurd (cc e);
}
Reach-IsWellFormed moving (add {l = l} now s r) =
    add_server-IsWellFormed now s l (Reach-IsWellFormed moving r)
Reach-IsWellFormed moving (success {l = l} now host ms r) =
    list_success-IsWellFormed moving now host ms l (Reach-IsWellFormed moving r)
Reach-IsWellFormed moving (failure {l = l} updated now host r) =
    drop_active-IsWellFormed (Health.record_failure updated now) host l
      (Reach-IsWellFormed moving r)
Reach-IsWellFormed moving (ban {l = l} now host r) =
    drop_active-IsWellFormed (Health.ban now) host l (Reach-IsWellFormed moving r)
Reach-IsWellFormed moving (disconnect {l = l} now host r) =
    drop_active-IsWellFormed (Health.disconnect now) host l (Reach-IsWellFormed moving r)
Reach-IsWellFormed moving (choose {l = l} now r) =
    pick_best-IsWellFormed l (eligible_servers now l.health l.servers) (Reach-IsWellFormed moving r)
