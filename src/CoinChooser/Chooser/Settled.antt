-- ===== src/CoinChooser/Chooser/Settled.antt =====
-- The random strategies of core/coinchooser.rs choose coins of the wallet, none of them twice.
use electrum_sv_mc.Prelude.{ℕ, suc, ◌+◌, ◌*◌, ◌^◌, ◌≤◌, ◌<◌, ◌≡◌, refl, sym, ap}
use electrum_sv_mc.Prelude.{Bool, true}
use electrum_sv_mc.Prelude.{List, [], ◌∷◌, ◌++◌, map, arith, ◌==◌, if-elim}
use electrum_sv_mc.Prelude.{length}
use mathlib.Core.Logic.{∥∥₁_elim}
use mathlib.Core.List.{
  Perm, Perm-prop, Permᴰ, append-nil, append_assoc, perm_middle, perm_append_comm,
}
use mathlib.Core.List.Perm
use native.Mathlib.Nat.{ℕ_set}
use electrum_sv_mc.CoinChooser.Types.{Coin, Text}
use electrum_sv_mc.CoinChooser.Prng.{from_coins}
use electrum_sv_mc.CoinChooser.Random.{
  Bucket, sufficient_funds, new_bucket, group_coins, entry_push,
}
use electrum_sv_mc.CoinChooser.Random.Drawn.{IsDrawn, IsDrawn-whole}
use electrum_sv_mc.CoinChooser.Random.Candidates.{bucket_candidates_total}
use electrum_sv_mc.CoinChooser.Chooser.{bucket_coins, bucketize, select_random}
use electrum_sv_mc.CoinChooser.Chooser.Laws.{
  IsSettled, settle_some, from_coins-IsReady, bucketize-AreBuckets, length-bucketize,
  select_random_step,
}

length-Permᴰ : {A : Type 0} {a b : List A} → Permᴰ a b → length a ≡ length b
length-Permᴰ Permᴰ.nil = refl
length-Permᴰ (Permᴰ.cons e p) = ap suc (length-Permᴰ p)
length-Permᴰ (Permᴰ.swap e e') = refl
length-Permᴰ (Permᴰ.trans p q) = omega (arith, length-Permᴰ p, length-Permᴰ q)

length-perm : {A : Type 0} {a b : List A} → Perm a b → length a ≡ length b
length-perm p = ∥∥₁_elim p (ℕ_set _ _) length-Permᴰ

bucket_coins-append : (a b : List Bucket) → bucket_coins (a ++ b) ≡ bucket_coins a ++ bucket_coins b
bucket_coins-append [] b = refl
bucket_coins-append (x ∷ a) b =
    rw (bucket_coins-append a b) (sym (append_assoc x.coins (bucket_coins a) (bucket_coins b)))

swap_front : (x y l : List Coin) → Perm (x ++ (y ++ l)) (y ++ (x ++ l))
swap_front x y l =
    rw (sym (append_assoc x y l), sym (append_assoc y x l))
      (Perm.append_right l (perm_append_comm x y))

bucket_coins-Permᴰ : {a b : List Bucket} → Permᴰ a b → Perm (bucket_coins a) (bucket_coins b)
bucket_coins-Permᴰ Permᴰ.nil = Perm.rfl
bucket_coins-Permᴰ (Permᴰ.cons {a} {b} e p) = rw e (Perm.append_left b.coins (bucket_coins-Permᴰ p))
bucket_coins-Permᴰ (Permᴰ.swap {a} {b} {a'} {b'} {l} e e') =
    rw (e, e') (swap_front b'.coins a'.coins (bucket_coins l))
bucket_coins-Permᴰ (Permᴰ.trans p q) = Perm.trans (bucket_coins-Permᴰ p) (bucket_coins-Permᴰ q)

bucket_coins-perm : {a b : List Bucket} → Perm a b → Perm (bucket_coins a) (bucket_coins b)
bucket_coins-perm p = ∥∥₁_elim p Perm-prop bucket_coins-Permᴰ

-- What is drawn of the buckets is drawn of their coins.
bucket_coins-IsDrawn :
    {whole chosen : List Bucket}
    → IsDrawn whole chosen
    → IsDrawn (bucket_coins whole) (bucket_coins chosen)
bucket_coins-IsDrawn {whole} {chosen} d = record {
  left = bucket_coins d.left;
  same = rw (bucket_coins-append chosen d.left) at (bucket_coins-perm d.same);
}

-- The coins of the entries of the map.
abbrev entry_coins : List (ℕ × List Coin) → List Coin
entry_coins l = bucket_coins (map new_bucket l)

entry_push-perm :
    (k : ℕ) (c : Coin) (l : List (ℕ × List Coin))
    → Perm (entry_coins (entry_push k c l)) (c ∷ entry_coins l)
unfolding entry_push new_bucket
entry_push-perm k c [] = Perm.rfl
entry_push-perm k c ((j, g) ∷ l) =
    if-elim (λ r. Perm (entry_coins r) (c ∷ (g ++ entry_coins l))) (j == k) _ _
      (λ _. rw (append_assoc g (c ∷ []) (entry_coins l)) (perm_middle {a = c} g (entry_coins l)))
      λ _.
        Perm.trans (Perm.append_left g (entry_push-perm k c l))
          (perm_middle {a = c} g (entry_coins l))

group_coins-perm :
    (coins : List Coin) (l : List (ℕ × List Coin))
    → Perm (entry_coins (group_coins coins l)) (coins ++ entry_coins l)
unfolding group_coins
group_coins-perm [] l = Perm.rfl
group_coins-perm (c ∷ coins) l =
    Perm.trans (group_coins-perm coins (entry_push c.keyinstance_id c l)) (
      Perm.trans (Perm.append_left coins (entry_push-perm c.keyinstance_id c l))
        (perm_middle {a = c} coins (entry_coins l)))

-- SHA-256 returns 32 bytes, and the iteration of a map yields its entries, in some order.
module _ (sha256 : Text → Text) (iterated : List (ℕ × List Coin) → List (ℕ × List Coin))
    (len32 : (t : Text) → length (sha256 t) ≡ 32)
    (entries : (l : List (ℕ × List Coin)) → Perm (iterated l) l) where
  bucketize-perm : (coins : List Coin) → Perm (bucket_coins (bucketize sha256 iterated coins)) coins
  unfolding bucketize
  bucketize-perm coins =
      Perm.trans (bucket_coins-perm (Perm.map new_bucket (entries (group_coins coins []))))
        (rw (append-nil coins) at (group_coins-perm coins []))

  -- With a hash of 32 bytes and a map that yields its entries in some order: if up to 2 ^ 32 coins in their buckets
  -- suffice for a positive target and the fee, and the target with the fee of an empty transaction is below 2 ^ 64,
  -- the random strategies end without a panic, and with a result: the coins of buckets that are drawn from those of
  -- the coins given and suffice. Each coin comes from the coins given, and none is taken twice.
  pub select_random_settles :
      (fee_rate target_amount : ℕ) (coins : List Coin) (privately : Bool)
      → length coins ≤ 2 ^ 32
      → 0 < target_amount
      → target_amount + 10 * fee_rate < 2 ^ 64
      → sufficient_funds fee_rate target_amount (bucketize sha256 iterated coins) ≡ true
      → (s : IsSettled fee_rate target_amount
          (bucketize sha256 iterated coins)
          (select_random sha256 iterated fee_rate coins target_amount privately))
        × IsDrawn coins (bucket_coins s.buckets)
  select_random_settles fee_rate target_amount coins privately b pos small enough =
      let buckets = bucketize sha256 iterated coins in
      let once = λ (l : List (ℕ × List Coin)). length-perm (entries l) in
      let whole = bucketize-AreBuckets sha256 iterated len32 once coins in
      let (l, e, all) =
        bucket_candidates_total fee_rate target_amount sha256 len32 buckets
          (from_coins sha256 coins) whole (from_coins-IsReady sha256 iterated len32 once coins)
          (omega (arith, length-bucketize sha256 iterated len32 once coins)) in
      let s =
        settle_some fee_rate target_amount privately buckets l pos small
          (record { enough = enough; whole = whole; drawn = IsDrawn-whole buckets }) all in
      let d = bucket_coins-IsDrawn s.candidate.drawn in
      rw (select_random_step sha256 iterated len32 once fee_rate target_amount coins privately l e)
        (s, record { left = d.left; same = Perm.trans d.same (bucketize-perm coins) })
