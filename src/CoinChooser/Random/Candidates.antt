-- ===== src/CoinChooser/Random/Candidates.antt =====
-- The candidates of core/coinchooser.rs: their generation does not panic, and each one suffices.
use electrum_sv_mc.Prelude.{ℕ, zero, suc, ◌+◌, ◌-◌, ◌*◌, ◌^◌, ◌≤◌, ◌<◌, ◌≡◌, refl, sym, ap, ◌∙◌}
use electrum_sv_mc.Prelude.{Bool, true, Option, none, some}
use electrum_sv_mc.Prelude.{List, [], ◌∷◌, ◌++◌, arith, leb, if◌then◌else◌}
use electrum_sv_mc.Prelude.{if-elim}
use electrum_sv_mc.Prelude.{length, get_elem?, All}
use Prim.Native.Nat.{min}
use mathlib.Core.List.{Mem, mem-cons, mem-cons_self, not-mem-nil, append_assoc, Perm}
use electrum_sv_mc.CoinChooser.Random.Drawn.{
  IsDrawn, IsDrawn-whole, IsDrawn-perm, IsDrawn-tail, IsDrawn-first, IsDrawn-head, sort_by-perm,
  picked, picked-get, picked-range, picked-perm, strip_from-IsDrawn,
}
use native.Mathlib.Bridge.{le_prop}
use mathlib.Core.List.Perm
use mathlib.Core.Logic.Or
use electrum_sv_mc.Prelude.Swap.{get_elem?-some}
use electrum_sv_mc.Prelude.Sort.{sort_by, insert_by}
use electrum_sv_mc.CoinChooser.Types.{wrap_sum, coin_value, coin_size, Text}
use electrum_sv_mc.CoinChooser.Prng.{Prng, shuffle}
use electrum_sv_mc.CoinChooser.Prng.Laws.{IsReady, shuffle-perm}
use electrum_sv_mc.CoinChooser.Random.{Bucket, sufficient_funds, range_from}
use electrum_sv_mc.CoinChooser.Random.{strip_from, strip_unneeded, grow, singletons, add_candidate}
use electrum_sv_mc.CoinChooser.Random.{attempt, bucket_candidates}
use electrum_sv_mc.CoinChooser.Random.Strip.{strip_unneeded-sufficient}

-- The recorded sums are those of the coins.
pub record IsBucket (b : Bucket) : Type 0 where
  pub summed : b.value ≡ wrap_sum coin_value b.coins
  pub sized : b.size ≡ wrap_sum coin_size b.coins

abbrev pub AreBuckets : List Bucket → Type 0
AreBuckets bks = All IsBucket bks

AreBuckets-insert_by :
    (le : Bucket → Bucket → Bool) (b : Bucket) (l : List Bucket)
    → IsBucket b
    → AreBuckets l
    → AreBuckets (insert_by le b l)
unfolding insert_by
AreBuckets-insert_by le b [] h k = (h, tt)
AreBuckets-insert_by le b (c ∷ l) h (kc, kl) =
    if-elim AreBuckets (le b c) _ _ (λ _. (h, (kc, kl))) λ _. (kc, AreBuckets-insert_by le b l h kl)

AreBuckets-sort_by :
    (le : Bucket → Bucket → Bool) (l : List Bucket) → AreBuckets l → AreBuckets (sort_by le l)
unfolding sort_by
AreBuckets-sort_by le [] h = tt
AreBuckets-sort_by le (b ∷ l) (h, hl) =
    AreBuckets-insert_by le b (sort_by le l) h (AreBuckets-sort_by le l hl)

AreBuckets-strip_from :
    (sufficient : List Bucket → Bool) (bkts l : List Bucket)
    → AreBuckets bkts
    → AreBuckets l
    → AreBuckets (strip_from sufficient bkts l)
unfolding strip_from
AreBuckets-strip_from sufficient bkts [] h k = h
AreBuckets-strip_from sufficient bkts (b ∷ rest) h (kb, kr) =
    if-elim AreBuckets (sufficient rest) _ _ (λ _. AreBuckets-strip_from sufficient bkts rest h kr)
      λ _. (kb, kr)

AreBuckets-get :
    (l : List Bucket) (i : ℕ) (b : Bucket) → AreBuckets l → get_elem? l i ≡ some b → IsBucket b
AreBuckets-get [] i b h e = cc
AreBuckets-get (c ∷ l) zero b (hc, hl) e = let same : c ≡ b = cc in rw (← same) hc
AreBuckets-get (c ∷ l) (suc i) b (hc, hl) e = AreBuckets-get l i b hl e

AreBuckets-snoc :
    (l : List Bucket) (b : Bucket) → AreBuckets l → IsBucket b → AreBuckets (l ++ (b ∷ []))
AreBuckets-snoc [] b h k = (k, tt)
AreBuckets-snoc (c ∷ l) b (hc, hl) k = (hc, AreBuckets-snoc l b hl k)

abbrev IsBelow : ℕ → List ℕ → Type 0
IsBelow n perm = (i : ℕ) → Mem i perm → i < n

range_from-lt : (a n i : ℕ) → Mem i (range_from a n) → i < a + n
range_from-lt a zero i m = absurd (not-mem-nil m)
range_from-lt a (suc n) i m =
    Or.elim le_prop (mem-cons.0 m) (λ e. omega arith)
      (λ k. omega (arith, range_from-lt (a + 1) n i k))

length-range_from : (a n : ℕ) → length (range_from a n) ≡ n
length-range_from a zero = refl
length-range_from a (suc n) = ap suc (length-range_from (a + 1) n)

module _ (fee_rate target_amount : ℕ) where
  -- A choice of the buckets, none of them twice, that suffices for the target and the fee.
  pub record IsCandidate (buckets cand : List Bucket) : Type 0 where
    pub enough : sufficient_funds fee_rate target_amount cand ≡ true
    pub whole : AreBuckets cand
    pub drawn : IsDrawn buckets cand

  IsCandidate-strip :
      {buckets cand : List Bucket}
      → IsCandidate buckets cand
      → IsCandidate buckets (strip_unneeded (sufficient_funds fee_rate target_amount) cand)
  IsCandidate-strip {buckets} {cand} c = record {
    enough = strip_unneeded-sufficient fee_rate target_amount cand c.enough;
    whole =
        let sorted-ok = AreBuckets-sort_by (λ a b. leb a.value b.value) cand c.whole in
        unfold strip_unneeded in AreBuckets-strip_from _ _ _ sorted-ok sorted-ok;
    drawn =
        let sorted = IsDrawn-perm (sort_by-perm (λ a b. leb a.value b.value) cand) c.drawn in
        unfold strip_unneeded in strip_from-IsDrawn _ _ _ sorted sorted;
  }

  singletons-IsCandidate :
      (buckets l : List Bucket)
      → AreBuckets l
      → IsDrawn buckets l
      → All (IsCandidate buckets) (singletons (sufficient_funds fee_rate target_amount) l)
  unfolding singletons
  singletons-IsCandidate buckets [] h d = tt
  singletons-IsCandidate buckets (b ∷ l) (hb, hl) d =
      let rest = singletons-IsCandidate buckets l hl (IsDrawn-tail d) in
      if-elim (All (IsCandidate buckets)) (sufficient_funds fee_rate target_amount (b ∷ [])) _ _
        (λ e. (record { enough = e; whole = (hb, tt); drawn = IsDrawn-head d }, rest)) λ _. rest

  -- What a permutation of the buckets finds, if it finds anything.
  abbrev Finds : List Bucket → Option (List Bucket) → Type 0
  Finds buckets none = Unit
  Finds buckets (some cand) = IsCandidate buckets cand

  grow_step :
      (buckets : List Bucket) (idx : ℕ) (perm : List ℕ) (bkts : List Bucket) (b : Bucket)
      → get_elem? buckets idx ≡ some b
      → grow (sufficient_funds fee_rate target_amount) buckets (idx ∷ perm) bkts ≡ (
          if sufficient_funds fee_rate target_amount (bkts ++ (b ∷ []))
          then some (some (bkts ++ (b ∷ [])))
          else grow (sufficient_funds fee_rate target_amount) buckets perm (bkts ++ (b ∷ [])))
  unfolding grow
  grow_step buckets idx perm bkts b e = rw (e, grow)

  grow_total :
      (buckets : List Bucket) (perm : List ℕ) (bkts : List Bucket)
      → AreBuckets buckets
      → AreBuckets bkts
      → IsBelow (length buckets) perm
      → (default : Bucket) → Perm (bkts ++ picked default buckets perm) buckets
      → (found : Option (List Bucket)) × (grow
            (sufficient_funds fee_rate target_amount)
            buckets
            perm
            bkts
          ≡ some found)
        × Finds buckets found
  grow_total buckets [] bkts h k below default p = (none, unfold grow in refl, tt)
  grow_total buckets (idx ∷ perm) bkts h k below default p =
      let (b, e) = get_elem?-some buckets idx (below idx mem-cons_self) in
      let k' = AreBuckets-snoc bkts b k (AreBuckets-get buckets idx b h e) in
      let p' : Perm ((bkts ++ (b ∷ [])) ++ picked default buckets perm) buckets =
        rw
          (
            append_assoc bkts (b ∷ []) (picked default buckets perm),
            sym (picked-get default buckets idx b e),
          )
          p in
      rw (grow_step buckets idx perm bkts b e) (
        if-elim (λ g. (found : Option (List Bucket)) × (g ≡ some found) × Finds buckets found) _ _ _
          (λ t. (
            some (bkts ++ (b ∷ [])),
            refl,
            record { enough = t; whole = k'; drawn = IsDrawn-first _ _ p' },
          ))
          λ _.
            grow_total buckets perm (bkts ++ (b ∷ [])) h k' (λ i m. below i (mem-cons.1 (Or.inr m)))
              default p')

  All-snoc :
      (buckets : List Bucket) (l : List (List Bucket)) (c : List Bucket)
      → All (IsCandidate buckets) l
      → IsCandidate buckets c
      → All (IsCandidate buckets) (l ++ (c ∷ []))
  All-snoc buckets [] c h k = (k, tt)
  All-snoc buckets (x ∷ l) c (hx, hl) k = (hx, All-snoc buckets l c hl k)

  add_candidate-All :
      (buckets : List Bucket) (found : Option (List Bucket)) (l : List (List Bucket))
      → Finds buckets found
      → All (IsCandidate buckets) l
      → All (IsCandidate buckets) (add_candidate (sufficient_funds fee_rate target_amount) found l)
  add_candidate-All buckets none l h k = k
  add_candidate-All buckets (some bkts) l h k = All-snoc buckets l _ k (IsCandidate-strip h)

  module _ (sha256 : Text → Text) (len32 : (t : Text) → length (sha256 t) ≡ 32) where
    attempt_step :
        (buckets : List Bucket) (n : ℕ) (perm perm' : List ℕ) (g g' : Prng)
        (candidates : List (List Bucket)) (found : Option (List Bucket))
        → shuffle sha256 perm g ≡ some (perm', g')
        → grow (sufficient_funds fee_rate target_amount) buckets perm' [] ≡ some found
        → attempt sha256 (sufficient_funds fee_rate target_amount) buckets (suc n) perm g candidates
          ≡ attempt sha256
              (sufficient_funds fee_rate target_amount)
              buckets
              n
              perm'
              g'
              (add_candidate (sufficient_funds fee_rate target_amount) found candidates)
    unfolding attempt
    attempt_step buckets n perm perm' g g' candidates found e f = rw (e, f, attempt)

    attempt_total :
        (buckets : List Bucket) (n : ℕ) (perm : List ℕ) (g : Prng) (candidates : List (List Bucket))
        → AreBuckets buckets
        → IsBelow (length buckets) perm
        → IsReady g
        → length perm ≤ 2 ^ 32
        → All (IsCandidate buckets) candidates
        → (default : Bucket) → Perm (picked default buckets perm) buckets
        → (l : List (List Bucket)) × (attempt sha256
              (sufficient_funds fee_rate target_amount)
              buckets
              n
              perm
              g
              candidates
            ≡ some l)
          × All (IsCandidate buckets) l
    attempt_total buckets zero perm g candidates h below ready b all default whole =
        (candidates, unfold attempt in refl, all)
    attempt_total buckets (suc n) perm g candidates h below ready b all default whole =
        let (perm', g', e, ready', p, same) = shuffle-perm sha256 len32 perm g ready b in
        let below' = λ (i : ℕ) (m : Mem i perm'). below i ((Perm.mem_iff p).0 m) in
        let whole' = Perm.trans (picked-perm default buckets p) whole in
        let (found, f, ok-found) = grow_total buckets perm' [] h tt below' default whole' in
        let (l, r, all') =
          attempt_total buckets n perm' g'
            (add_candidate (sufficient_funds fee_rate target_amount) found candidates) h below'
            ready' (omega arith) (add_candidate-All buckets found candidates ok-found all) default
            whole' in
        (l, attempt_step buckets n perm perm' g g' candidates found e f ∙ r, all')

    -- With a hash of 32 bytes, and on up to 2 ^ 32 buckets with the sums of their coins, the
    -- generation of candidates ends without a
    -- panic, and every candidate suffices for the target and the fee, and is drawn from the buckets with none of them
    -- twice.
    pub bucket_candidates_total :
        (buckets : List Bucket) (g : Prng)
        → AreBuckets buckets
        → IsReady g
        → length buckets ≤ 2 ^ 32
        → (l : List (List Bucket)) × (bucket_candidates sha256 buckets
              (sufficient_funds fee_rate target_amount)
              g
            ≡ some l)
          × All (IsCandidate buckets) l
    unfolding bucket_candidates
    bucket_candidates_total [] g h ready b = ([], refl, tt)
    bucket_candidates_total (c ∷ rest) g h ready b =
        attempt_total (c ∷ rest) (min 100 ((length (c ∷ rest) - 1) * 10 + 1))
          (range_from 0 (length (c ∷ rest))) g
          (singletons (sufficient_funds fee_rate target_amount) (c ∷ rest)) h
          (λ i m. omega (arith, range_from-lt 0 (length (c ∷ rest)) i m)) ready
          (omega (arith, length-range_from 0 (length (c ∷ rest))))
          (singletons-IsCandidate (c ∷ rest) (c ∷ rest) h (IsDrawn-whole (c ∷ rest))) c
          (rw (picked-range c (c ∷ rest)) Perm.rfl)
