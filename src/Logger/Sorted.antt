-- ===== src/Logger/Sorted.antt =====
-- The order of the old logs that are found by rd-hashd/src/logger.rs.
use Prim.Native.Nat.{Ordering}
use mathlib.Core.List.{Perm}
use mathlib.Core.List.Perm
use resctl_demo.Prelude.{ℕ, ◌≡◌, ◌≢◌, ◌⊎◌, inl, inr, refl, List, [], ◌∷◌}
use resctl_demo.Prelude.Order.{ℕ_ord, pair_ord, cmp_pair-flip}
use resctl_demo.Text.{Text}
use resctl_demo.Logger.{insert_log, sort_logs}

module _ (stamp_of : Text → ℕ × ℕ) where
  -- No log is older than the one before it.
  abbrev pub StartsAfter : Text → List Text → Type 0
  StartsAfter p [] = Unit
  StartsAfter p (q ∷ qs) = pair_ord.cmp (stamp_of p) (stamp_of q) ≢ Ordering.gt

  abbrev pub IsByTime : List Text → Type 0
  IsByTime [] = Unit
  IsByTime (p ∷ ps) = StartsAfter p ps × IsByTime ps

  -- A log is put where no older one follows.
  insert_log-cases :
      (p q : Text) (qs : List Text)
      → ((pair_ord.cmp (stamp_of p) (stamp_of q) ≡ Ordering.gt)
          × (insert_log stamp_of p (q ∷ qs) ≡ q ∷ insert_log stamp_of p qs))
        ⊎ ((pair_ord.cmp (stamp_of p) (stamp_of q) ≢ Ordering.gt)
            × (insert_log stamp_of p (q ∷ qs) ≡ p ∷ q ∷ qs))
  unfolding insert_log
  insert_log-cases p q qs = go (pair_ord.cmp (stamp_of p) (stamp_of q)) refl
    where
      go :
          (o : Ordering)
          → pair_ord.cmp (stamp_of p) (stamp_of q) ≡ o
          → ((pair_ord.cmp (stamp_of p) (stamp_of q) ≡ Ordering.gt)
              × (insert_log stamp_of p (q ∷ qs) ≡ q ∷ insert_log stamp_of p qs))
            ⊎ ((pair_ord.cmp (stamp_of p) (stamp_of q) ≢ Ordering.gt)
                × (insert_log stamp_of p (q ∷ qs) ≡ p ∷ q ∷ qs))
      go Ordering.gt e = inl (e, rw (insert_log, e) refl)
      go Ordering.lt e = inr (λ g. cc, rw (insert_log, e) refl)
      go Ordering.eq e = inr (λ g. cc, rw (insert_log, e) refl)

  insert_log-StartsAfter :
      (r p : Text) (qs : List Text)
      → StartsAfter r qs
      → pair_ord.cmp (stamp_of r) (stamp_of p) ≢ Ordering.gt
      → StartsAfter r (insert_log stamp_of p qs)
  unfolding insert_log
  insert_log-StartsAfter r p [] h k = k
  insert_log-StartsAfter r p (q ∷ qs) h k = elim (insert_log-cases p q qs) [
    | inl (g, eq) ↦ rw eq h
    | inr (n, eq) ↦ rw eq k
  ]

  newer : (a b : ℕ × ℕ) → pair_ord.cmp a b ≡ Ordering.gt → pair_ord.cmp b a ≢ Ordering.gt
  newer a b g = let l = cmp_pair-flip a b g in λ h. cc

  insert_log-IsByTime :
      (p : Text) (qs : List Text) → IsByTime qs → IsByTime (insert_log stamp_of p qs)
  unfolding insert_log
  insert_log-IsByTime p [] h = (tt, tt)
  insert_log-IsByTime p (q ∷ qs) (a, h) = elim (insert_log-cases p q qs) [
    | inl (g, eq) ↦ rw eq (
      insert_log-StartsAfter q p qs a (newer (stamp_of p) (stamp_of q) g),
      insert_log-IsByTime p qs h,
    )
    | inr (n, eq) ↦ rw eq (n, (a, h))
  ]

  insert_log-perm : (p : Text) (qs : List Text) → Perm (p ∷ qs) (insert_log stamp_of p qs)
  unfolding insert_log
  insert_log-perm p [] = Perm.rfl
  insert_log-perm p (q ∷ qs) = elim (insert_log-cases p q qs) [
    | inl (g, eq) ↦ rw eq (Perm.trans (Perm.swap q p qs) (Perm.cons q (insert_log-perm p qs)))
    | inr (n, eq) ↦ rw eq Perm.rfl
  ]

  -- The logs that are found are sorted by their times, and none is lost or made up.
  pub sort_logs-IsByTime : (ps : List Text) → IsByTime (sort_logs stamp_of ps)
  unfolding sort_logs
  sort_logs-IsByTime [] = tt
  sort_logs-IsByTime (p ∷ ps) =
      insert_log-IsByTime p (sort_logs stamp_of ps) (sort_logs-IsByTime ps)

  pub sort_logs-perm : (ps : List Text) → Perm ps (sort_logs stamp_of ps)
  unfolding sort_logs
  sort_logs-perm [] = Perm.rfl
  sort_logs-perm (p ∷ ps) =
      Perm.trans (Perm.cons p (sort_logs-perm ps)) (insert_log-perm p (sort_logs stamp_of ps))
