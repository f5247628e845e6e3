-- ===== src/Prelude/Assoc.antt =====
-- A `HashMap` with byte strings for keys, as the list of its entries in the order of a traversal.
use mathlib.Core.Path.{◌≡◌, refl, ◌∙◌}
use mathlib.Core.Logic.{inl, inr}
use mathlib.Core.Bool.{Bool, true, false}
use mathlib.Core.Option.{Option, none, some}
use mathlib.Core.List.{List, [], ◌∷◌}
use Prim.Native.Nat.{ℕ}
use native.Mathlib.Omega.{arith}
use electrum_sv_mc.Prelude.Tests.{Bool-cases, if◌then◌else◌, if-elim}
use electrum_sv_mc.Prelude.Bytes.{bytes_eq, bytes_eq_iff, bytes_eq_refl, bytes_ne_sym}

module _ {ℓ} {A : Type ℓ} where
  -- `HashMap::get`
  unfoldable pub lookup : List ℕ → List (List ℕ × A) → Option A
  lookup key [] = none
  lookup key (e ∷ rest) =
      let later = lookup key rest in if bytes_eq (e.0) key then some (e.1) else later

  -- `HashMap::insert`
  unfoldable pub insert : List ℕ → A → List (List ℕ × A) → List (List ℕ × A)
  insert key entry [] = (key, entry) ∷ []
  insert key entry (e ∷ rest) =
      let later = insert key entry rest in
      if bytes_eq (e.0) key then (e.0, entry) ∷ rest else e ∷ later

  -- `HashMap::remove`
  unfoldable pub take_out : List ℕ → List (List ℕ × A) → List (List ℕ × A)
  take_out key [] = []
  take_out key (e ∷ rest) =
      let later = take_out key rest in if bytes_eq (e.0) key then rest else e ∷ later

  -- `if let Some(entry) = map.get_mut(key) { *entry = change(entry) }`
  unfoldable pub adjust : (A → A) → List ℕ → List (List ℕ × A) → List (List ℕ × A)
  adjust change key [] = []
  adjust change key (e ∷ rest) =
      let later = adjust change key rest in
      if bytes_eq (e.0) key then (e.0, change (e.1)) ∷ rest else e ∷ later

  -- `retain(|_, entry| test(entry))`
  unfoldable pub retain : (A → Bool) → List (List ℕ × A) → List (List ℕ × A)
  retain test [] = []
  retain test (e ∷ rest) = let later = retain test rest in if test (e.1) then e ∷ later else later

  -- No key stands twice.
  abbrev pub IsMap : List (List ℕ × A) → Type ℓ
  IsMap [] = Unit
  IsMap (e ∷ rest) = (lookup (e.0) rest ≡ none) × IsMap rest

module _ {ℓ} {A : Type ℓ} where
  pub lookup-take_out :
      (h : List ℕ) (l : List (List ℕ × A)) → IsMap l → lookup h (take_out h l) ≡ none
  unfolding lookup take_out
  lookup-take_out h [] m = refl
  lookup-take_out h (e ∷ l) (f, m) = ground (arith, lookup-take_out h l m, bytes_eq_iff (e.0) h)

  pub lookup-take_out_ne :
      (h k : List ℕ) (l : List (List ℕ × A))
      → bytes_eq h k ≡ false
      → lookup k (take_out h l) ≡ lookup k l
  unfolding lookup take_out
  lookup-take_out_ne h k [] ne = refl
  lookup-take_out_ne h k (e ∷ l) ne = ground (
    arith,
    lookup-take_out_ne h k l ne,
    bytes_eq_iff (e.0) h,
    bytes_eq_iff (e.0) k,
    bytes_eq_iff h k,
  )

  pub lookup-insert :
      (h : List ℕ) (x : A) (l : List (List ℕ × A)) → lookup h (insert h x l) ≡ some x
  unfolding lookup insert
  lookup-insert h x [] = rw (bytes_eq_refl h)
  lookup-insert h x (e ∷ l) = ground (arith, lookup-insert h x l)

  pub lookup-insert_ne :
      (h k : List ℕ) (x : A) (l : List (List ℕ × A))
      → bytes_eq h k ≡ false
      → lookup k (insert h x l) ≡ lookup k l
  unfolding lookup insert
  lookup-insert_ne h k x [] ne = rw ne
  lookup-insert_ne h k x (e ∷ l) ne = ground (
    arith,
    lookup-insert_ne h k x l ne,
    bytes_eq_iff (e.0) h,
    bytes_eq_iff (e.0) k,
    bytes_eq_iff h k,
  )

  -- Where an entry is adjusted.
  abbrev pub adjusted : (A → A) → Option A → Option A
  adjusted change none = none
  adjusted change (some x) = some (change x)

  pub lookup-adjust :
      (change : A → A) (h : List ℕ) (l : List (List ℕ × A))
      → lookup h (adjust change h l) ≡ adjusted change (lookup h l)
  unfolding lookup adjust
  lookup-adjust change h [] = refl
  lookup-adjust change h (e ∷ l) = elim (Bool-cases (bytes_eq (e.0) h)) [
    | inl hit ↦ rw (hit, lookup, hit)
    | inr miss ↦ rw (miss, lookup, miss) (lookup-adjust change h l)
  ]

  pub lookup-adjust_ne :
      (change : A → A) (h k : List ℕ) (l : List (List ℕ × A))
      → bytes_eq h k ≡ false
      → lookup k (adjust change h l) ≡ lookup k l
  unfolding lookup adjust
  lookup-adjust_ne change h k [] ne = refl
  lookup-adjust_ne change h k (e ∷ l) ne = ground (
    arith,
    lookup-adjust_ne change h k l ne,
    bytes_eq_iff (e.0) h,
    bytes_eq_iff (e.0) k,
    bytes_eq_iff h k,
  )

  pub lookup-retain-none :
      (test : A → Bool) (h : List ℕ) (l : List (List ℕ × A))
      → lookup h l ≡ none
      → lookup h (retain test l) ≡ none
  unfolding lookup retain
  lookup-retain-none test h [] e = refl
  lookup-retain-none test h (x ∷ l) e = ground (arith, lookup-retain-none test h l)

  pub retain-IsMap : (test : A → Bool) (l : List (List ℕ × A)) → IsMap l → IsMap (retain test l)
  unfolding retain
  retain-IsMap test [] m = tt
  retain-IsMap test (x ∷ l) (f, m) =
      if-elim IsMap (test (x.1)) _ _
        (λ _. (lookup-retain-none test (x.0) l f, retain-IsMap test l m)) λ _. retain-IsMap test l m

  take_out-none :
      (h k : List ℕ) (l : List (List ℕ × A)) → lookup k l ≡ none → lookup k (take_out h l) ≡ none
  unfolding lookup take_out
  take_out-none h k [] e = refl
  take_out-none h k (x ∷ l) e = ground (arith, take_out-none h k l)

  pub take_out-IsMap : (h : List ℕ) (l : List (List ℕ × A)) → IsMap l → IsMap (take_out h l)
  unfolding take_out
  take_out-IsMap h [] m = tt
  take_out-IsMap h (x ∷ l) (f, m) =
      if-elim IsMap (bytes_eq (x.0) h) _ _ (λ _. m)
        λ _. (take_out-none h (x.0) l f, take_out-IsMap h l m)

  pub insert-IsMap : (h : List ℕ) (y : A) (l : List (List ℕ × A)) → IsMap l → IsMap (insert h y l)
  unfolding insert lookup
  insert-IsMap h y [] m = (refl, tt)
  insert-IsMap h y (x ∷ l) (f, m) =
      if-elim IsMap (bytes_eq (x.0) h) _ _ (λ _. (f, m))
        λ miss. (lookup-insert_ne h (x.0) y l (bytes_ne_sym (x.0) h miss) ∙ f, insert-IsMap h y l m)

  -- What `retain` keeps was there, and passes the test.
  pub lookup-retain :
      (test : A → Bool) (h : List ℕ) (l : List (List ℕ × A)) (x : A)
      → IsMap l
      → lookup h (retain test l) ≡ some x
      → (lookup h l ≡ some x) × (test x ≡ true)
  unfolding lookup retain
  lookup-retain test h [] x m e = absurd (cc e)
  lookup-retain test h (y ∷ l) x (f, m) e =
      ground (arith, lookup-retain test h l x m, lookup-retain-none test h l, bytes_eq_iff (y.0) h)

  pub lookup-retain-some :
      (test : A → Bool) (h : List ℕ) (l : List (List ℕ × A)) (x : A)
      → lookup h l ≡ some x
      → test x ≡ true
      → lookup h (retain test l) ≡ some x
  unfolding lookup retain
  lookup-retain-some test h [] x e t = absurd (cc e)
  lookup-retain-some test h (y ∷ l) x e t = ground (arith, e, t, lookup-retain-some test h l x)
