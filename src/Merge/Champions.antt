-- ===== src/Merge/Champions.antt =====
-- Who wins in `pick_best`, the choice that resctl-bench/src/merge.rs makes.
use Prim.Native.Nat.{Ordering}
use resctl_demo.Prelude.{
  ℕ, ◌≤◌, ◌<◌, ◌≡◌, refl, sym, List, [], ◌∷◌, ◌++◌, Option, none, some, Bool, true, false, not,
  ◌&&◌, ◌||◌, ltb, ◌==◌, arith, Bool-cases, inl, inr, subst, ltb→lt,
}
use mathlib.Core.List.{append-nil, append_assoc}
use resctl_demo.Prelude.Order.{Ord}
use resctl_demo.BTreeMap.{get, insert, is_eq, get-insert}
use resctl_demo.BTreeMap.Sorted.{IsSorted, After, IsSorted-middle, get-snoc, get-After, After-none}
use resctl_demo.BTreeMap.{is_some}
use resctl_demo.Merge.Best.{Best, against, pick_best}

abbrev pub is_lt : Ordering → Bool
is_lt Ordering.lt = true
is_lt _ = false

module _ {K V Q : Type 0} ⦃o : Ord K⦄ ⦃q : Ord Q⦄ (key : K → Q) (score : V → ℕ) where
  -- Another set with the same key.
  abbrev pub is_rival : Q → K → K → List (K × V) → Bool
  is_rival k mid m sets =
      is_some (get m sets) && is_eq (q.cmp k (key m)) && not (is_eq (o.cmp m mid))

  -- A lower score, or the same one and a later place.
  abbrev pub loses : K → ℕ → K → Option V → Bool
  loses mid cnt m none = false
  loses mid cnt m (some srcs) = ltb (score srcs) cnt || ((score srcs == cnt) && is_lt (o.cmp mid m))

  -- The winner among the sets with the key `k`.
  pub record IsChampion (k : Q) (sets : List (K × V)) (b : Best K) : Type 0 where
    pub enters : (srcs : V) × (get b.best_mid sets ≡ some srcs) × (score srcs ≡ b.best_cnt)
    pub key_is : key b.best_mid ≡ k
    pub wins :
        (m : K)
        → (is_rival k b.best_mid m sets && not (loses b.best_mid b.best_cnt m (get m sets))) ≡ false
    pub losers : (m : K) → is_some (get m b.lost_mids) ≡ is_rival k b.best_mid m sets

  abbrev pub HasChampion : Q → List (K × V) → Option (Best K) → Type 0
  HasChampion k sets none = (m : K) → (is_some (get m sets) && is_eq (q.cmp k (key m))) ≡ false
  HasChampion k sets (some b) = IsChampion k sets b

  module _ (k : Q) (mid : K) (srcs : V) (done : List (K × V)) (after : After mid done)
      (key_is : key mid ≡ k) where
    abbrev more : List (K × V)
    more = done ++ (mid, srcs) ∷ []

    free : get mid done ≡ none
    free = After-none mid done after

    first-IsChampion :
        HasChampion k done none
        → IsChampion k more (record { best_cnt = score srcs; best_mid = mid; lost_mids = [] })
    unfolding get
    first-IsChampion h = record {
      enters = (srcs, ground (arith, get-snoc mid mid srcs done, free, o.eq_iff mid mid), refl);
      key_is = key_is;
      wins = λ m. ground (arith, get-snoc m mid srcs done, h m);
      losers = λ m. ground (arith, get-snoc m mid srcs done, h m);
    }

    module _ (b : Best K) (c : IsChampion k done b) where
      still_there : (v : V) × (get b.best_mid more ≡ some v) × (score v ≡ b.best_cnt)
      still_there =
          let (v, e, s) = c.enters in (v, ground (arith, get-snoc b.best_mid mid srcs done, e), s)

      best-lt : o.cmp b.best_mid mid ≡ Ordering.lt
      best-lt = let (v, e, s) = c.enters in get-After b.best_mid mid done v after e

      lost-IsChampion :
          score srcs ≤ b.best_cnt
          → IsChampion k more (record b { lost_mids = insert mid tt b.lost_mids })
      lost-IsChampion le = record {
        enters = still_there;
        key_is = c.key_is;
        wins = λ m. ground (
          arith,
          get-snoc m mid srcs done,
          c.wins m,
          best-lt,
          o.eq_iff m mid,
          key_is,
          q.eq_iff k (key m),
        );
        losers = λ m. ground (
          arith,
          get-snoc m mid srcs done,
          c.losers m,
          best-lt,
          o.eq_iff m mid,
          o.eq_iff m b.best_mid,
          o.eq_iff b.best_mid mid,
          q.eq_iff k (key m),
          key_is,
          free,
          get-insert mid m tt b.lost_mids,
        );
      }

      won-IsChampion :
          b.best_cnt < score srcs
          → IsChampion k more (record {
            best_cnt = score srcs;
            best_mid = mid;
            lost_mids = insert b.best_mid tt b.lost_mids;
          })
      won-IsChampion lt = record {
        enters = (srcs, ground (arith, get-snoc mid mid srcs done, free, o.eq_iff mid mid), refl);
        key_is = key_is;
        wins = λ m. ground (
          arith,
          get-snoc m mid srcs done,
          c.wins m,
          c.enters,
          o.eq_iff m b.best_mid,
          o.eq_iff m mid,
        );
        losers = λ m. ground (
          arith,
          get-snoc m mid srcs done,
          c.losers m,
          c.enters,
          best-lt,
          o.eq_iff m mid,
          o.eq_iff m b.best_mid,
          o.eq_iff b.best_mid mid,
          q.eq_iff k (key m),
          c.key_is,
          free,
          get-insert b.best_mid m tt b.lost_mids,
        );
      }

    against-IsChampion :
        (old : Option (Best K))
        → HasChampion k done old
        → IsChampion k more (against key score mid (score srcs) old)
    unfolding against
    against-IsChampion none h = first-IsChampion h
    against-IsChampion (some b) c = elim (Bool-cases (ltb b.best_cnt (score srcs))) [
      | inl p ↦ rw p (won-IsChampion b c (ltb→lt _ _ p))
      | inr p ↦ rw p (lost-IsChampion b c (ground (arith, p)))
    ]

  -- A set with another key changes nothing.
  HasChampion-snoc :
      (k : Q) (mid : K) (srcs : V) (done : List (K × V)) (b : Option (Best K))
      → After mid done
      → is_eq (q.cmp k (key mid)) ≡ false
      → HasChampion k done b
      → HasChampion k (done ++ (mid, srcs) ∷ []) b
  HasChampion-snoc k mid srcs done none after ne h =
      λ m. ground (arith, get-snoc m mid srcs done, h m, o.eq_iff m mid)
  HasChampion-snoc k mid srcs done (some b) after ne c =
      let (v, e, s) = c.enters in
      record {
        enters = (v, ground (arith, get-snoc b.best_mid mid srcs done, e), s);
        key_is = c.key_is;
        wins = λ m. ground (arith, get-snoc m mid srcs done, c.wins m, o.eq_iff m mid);
        losers = λ m. ground (arith, get-snoc m mid srcs done, c.losers m, o.eq_iff m mid);
      }

  same_key : (k : Q) (mid : K) → is_eq (q.cmp k (key mid)) ≡ true → key mid ≡ k
  same_key k mid p = ground (arith, q.eq_iff k (key mid), p)

  insert-HasChampion :
      (k : Q) (mid : K) (srcs : V) (done : List (K × V)) (best : List (Q × Best K))
      → After mid done
      → ((k : Q) → HasChampion k done (get k best))
      → HasChampion k
          (done ++ (mid, srcs) ∷ [])
          (get k (insert (key mid) (against key score mid (score srcs) (get (key mid) best)) best))
  insert-HasChampion k mid srcs done best after h =
      let new = against key score mid (score srcs) (get (key mid) best) in
      let same = λ (p : is_eq (q.cmp k (key mid)) ≡ true). same_key k mid p in
      elim (Bool-cases (is_eq (q.cmp k (key mid)))) [
        | inl p ↦
            rw (get-insert (key mid) k new best, p)
              (against-IsChampion k mid srcs done after (same p) _
                (subst (λ j. HasChampion k done (get j best)) (sym (same p)) (h k)))
        | inr p ↦
            rw (get-insert (key mid) k new best, p)
              (HasChampion-snoc k mid srcs done (get k best) after p (h k))
      ]

  pick_best-rest :
      (done rest : List (K × V)) (best : List (Q × Best K))
      → IsSorted (done ++ rest)
      → ((k : Q) → HasChampion k done (get k best))
      → (k : Q) → HasChampion k (done ++ rest) (get k (pick_best key score rest best))
  unfolding pick_best
  pick_best-rest done [] best s h k = rw (append-nil done) (h k)
  pick_best-rest done ((mid, srcs) ∷ rest) best s h k =
      let after = IsSorted-middle done mid srcs rest s in
      let assoc = append_assoc done ((mid, srcs) ∷ []) rest in
      subst
        (λ sets. HasChampion k sets (
          get k (
            pick_best key score rest
              (insert (key mid) (against key score mid (score srcs) (get (key mid) best)) best))))
        assoc
        (pick_best-rest (done ++ (mid, srcs) ∷ []) rest _ (subst IsSorted (sym assoc) s)
          (λ j. insert-HasChampion j mid srcs done best after h) k)

  -- Among sorted sets, there is a winner for each key that occurs.
  pub pick_best-HasChampion :
      (sets : List (K × V)) (k : Q)
      → IsSorted sets
      → HasChampion k sets (get k (pick_best key score sets []))
  unfolding get
  pick_best-HasChampion sets k s = pick_best-rest [] sets [] s (λ j m. ground arith) k
