-- ===== src/Servers/List/Choice.antt =====
-- The choice of a server, `select_best` of network/server_list.rs.
use electrum_sv_mc.Prelude.{ℕ, suc, ◌%◌, ◌≤◌, ◌≡◌, refl, ◌≢◌, leb→le, le→leb, Option}
use electrum_sv_mc.Prelude.{◌↔◌, inl, inr, true, none, some}
use electrum_sv_mc.Prelude.{List, [], ◌∷◌, arith, leb}
use electrum_sv_mc.Prelude.{Bool-cases, if-elim}
use electrum_sv_mc.Prelude.{length, get_elem?, All}
use electrum_sv_mc.Prelude.{All-map, All-get}
use electrum_sv_mc.Prelude.Sort.{All-sort_by, length-sort_by}
use electrum_sv_mc.Prelude.Swap.{get_elem?-some}
use electrum_sv_mc.Prelude.Assoc.{lookup}
use electrum_sv_mc.Servers.Health.{
  ServerStatus, unknown, connected, disconnected, failed, banned, ServerHealth, backoff_expired,
  eligible_in, is_eligible,
}
use mathlib.Core.Option.{some-injective}
use mathlib.Core.Path.{subst}
use electrum_sv_mc.Servers.List.{
  ServerEntry, HealthMap, ServerList, eligible_of, eligible_servers, latency_key, by_latency,
}
use electrum_sv_mc.Servers.List.{pick_best, select_best}

-- What a status and a time of retry allow: not banned, not connected, and after a failure the time has come.
abbrev pub IsFreeIn : ServerStatus → ℕ → Option ℕ → Type 0
IsFreeIn status now retry_after =
    (status ≢ banned)
    × (status ≢ connected)
    × (status ≡ failed → (when : ℕ) → retry_after ≡ some when → when ≤ now)

-- A server may be tried: what is recorded of it, if anything is, leaves it free.
abbrev pub MayTry : ℕ → HealthMap → ServerEntry → Type 0
MayTry now health s =
    (h : ServerHealth) → lookup s.host health ≡ some h → IsFreeIn h.status now h.retry_after

backoff_expired-IsFree :
    (now : ℕ) (r : Option ℕ)
    → (backoff_expired now r ≡ true) ↔ ((when : ℕ) → r ≡ some when → when ≤ now)
backoff_expired-IsFree now none = (λ _ when e. absurd (cc e), λ _. refl)
backoff_expired-IsFree now (some t) = (
  λ e when same. omega (arith, leb→le t now e, some-injective _ _ same),
  λ h. le→leb t now (h t refl),
)

eligible_in-IsFreeIn :
    (status : ServerStatus) (now : ℕ) (r : Option ℕ)
    → (eligible_in status now r ≡ true) ↔ IsFreeIn status now r
eligible_in-IsFreeIn banned now r = (λ e. absurd (cc e), λ p. absurd (p.0 refl))
eligible_in-IsFreeIn connected now r = (λ e. absurd (cc e), λ p. absurd (p.1 refl))
eligible_in-IsFreeIn failed now r =
    let (fwd, bwd) = backoff_expired-IsFree now r in
    ((λ e. ((λ x. cc x), (λ x. cc x), λ _. fwd e)), λ p. bwd (p.2 refl))
eligible_in-IsFreeIn disconnected now r =
    ((λ e. ((λ x. cc x), (λ x. cc x), λ x. absurd (cc x))), λ p. refl)
eligible_in-IsFreeIn unknown now r =
    ((λ e. ((λ x. cc x), (λ x. cc x), λ x. absurd (cc x))), λ p. refl)

-- The test of the code decides it.
eligible_of-MayTry :
    (now : ℕ) (o : Option ServerHealth)
    → (eligible_of now o ≡ true)
      ↔ ((h : ServerHealth) → o ≡ some h → IsFreeIn h.status now h.retry_after)
unfolding is_eligible
eligible_of-MayTry now none = (λ _ h e. absurd (cc e), λ _. refl)
eligible_of-MayTry now (some g) =
    let (fwd, bwd) = eligible_in-IsFreeIn g.status now g.retry_after in
    (
      λ e h same.
          subst (λ k. IsFreeIn k.status now k.retry_after) (some-injective _ _ same) (fwd e),
      λ p. bwd (p g refl),
    )

-- It is one of the list.
abbrev pub IsIn : List ServerEntry → ServerEntry → Type 0
IsIn l s = (i : ℕ) × (get_elem? l i ≡ some s)

module _ (now : ℕ) (health : HealthMap) where
  eligible_servers-IsIn :
      (l : List ServerEntry)
      → All (λ s. IsIn l s × MayTry now health s) (eligible_servers now health l)
  unfolding eligible_servers
  eligible_servers-IsIn [] = tt
  eligible_servers-IsIn (x ∷ l) =
      let rest =
        All-map (λ s (p : IsIn l s × MayTry now health s). ((suc (p.0.0), p.0.1), p.1))
          (eligible_servers now health l) (eligible_servers-IsIn l) in
      if-elim (All (λ s. IsIn (x ∷ l) s × MayTry now health s))
        (eligible_of now (lookup x.host health)) _ _
        (λ t. (((0, refl), (eligible_of-MayTry now (lookup x.host health)).0 t), rest)) λ _. rest

  -- Nothing is left exactly if no server may be tried.
  eligible_servers-empty :
      (l : List ServerEntry)
      → (eligible_servers now health l ≡ []) ↔ All (λ s. ¬ MayTry now health s) l
  unfolding eligible_servers
  eligible_servers-empty [] = (λ _. tt, λ _. refl)
  eligible_servers-empty (x ∷ l) = elim (Bool-cases (eligible_of now (lookup x.host health))) [
    | inl t ↦ rw t (
      λ e. absurd (cc e),
      λ a. absurd (a.0 ((eligible_of-MayTry now (lookup x.host health)).0 t)),
    )
    | inr f ↦ rw f (
      λ e. (
        (λ m. cc (f, (eligible_of-MayTry now (lookup x.host health)).1 m)),
        (eligible_servers-empty l).0 e,
      ),
      λ a. (eligible_servers-empty l).1 (a.1),
    )
  ]

-- What `pick_best` takes is one of the candidates, and it takes one if there is one.
pick_best_lem :
    (l : ServerList) (es : List ServerEntry) (P : ServerEntry → Type 0)
    → All P es
    → (((pick_best l es).1 ≡ none) ↔ (es ≡ []))
      × ((s : ServerEntry) → (pick_best l es).1 ≡ some s → P s)
unfolding pick_best
pick_best_lem l [] P h = ((λ _. refl, λ _. refl), λ s e. absurd (cc e))
pick_best_lem l (x ∷ es) P h =
    let le = λ (a b : ServerEntry). leb (latency_key l.health a) (latency_key l.health b) in
    let sorted = by_latency l.health (x ∷ es) in
    let size : length sorted ≡ suc (length es) = length-sort_by le (x ∷ es) in
    let (s, at) = get_elem?-some sorted (l.rr_counter % length sorted) (omega (arith, size)) in
    (
      (λ e. absurd (cc (e, at)), λ e. absurd (cc e)),
      λ s e. All-get P sorted (l.rr_counter % length sorted) s (All-sort_by P le (x ∷ es) h) e,
    )

-- The server chosen is one of the list, and what is recorded of it, if anything is, is not banned, not connected,
-- and not failed with a retry time still to come. None is chosen exactly if there is no such server in the list.
pub select_best_lem :
    (now : ℕ) (l : ServerList)
    → (((select_best now l).1 ≡ none) ↔ All (λ s. ¬ MayTry now l.health s) l.servers)
      × ((s : ServerEntry)
          → (select_best now l).1 ≡ some s
          → IsIn l.servers s × MayTry now l.health s)
unfolding select_best
select_best_lem now l =
    let (empty, member) =
      pick_best_lem l (eligible_servers now l.health l.servers)
        (λ s. IsIn l.servers s × MayTry now l.health s)
        (eligible_servers-IsIn now l.health l.servers) in
    let (fwd, bwd) = eligible_servers-empty now l.health l.servers in
    ((λ e. fwd (empty.0 e), λ a. empty.1 (bwd a)), member)
