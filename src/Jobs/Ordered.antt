-- ===== src/Jobs/Ordered.antt =====
-- What `update_incremental_jctx` of resctl-bench/src/run.rs leaves in the list of jobs.
use resctl_demo.Prelude.{
  ℕ, ◌≤◌, ◌≡◌, ◌≢◌, refl, sym, ap, ◌∙◌, subst, List, [], ◌∷◌, ◌++◌, Option, none, some, Bool, true,
  false, ◌==◌, ==_iff, if◌then◌else◌, arith, All, All-map, Option-cases, Bool-cases, ◌⊎◌, inl, inr,
}
use mathlib.Core.List.{append-nil, append_assoc}
use resctl_demo.Prelude.Outcome.{ok}
use resctl_demo.Prelude.Words.{add64}
use resctl_demo.Jobs.{JobCtx, by_uid, Found, replaced}
use resctl_demo.Jobs.Numbers.{count_uid, count_uid-append, by_uid-middle}
use resctl_demo.Jobs.Updates.{
  by_uid_mut, insert_by_seq, sort_by_update_seq, update_incremental_jctx,
}

sorted_others :
    {D : Type 0} {u : ℕ} {a b c : D} (k : ℕ) → (k ≡ u) ⊎ (b ≡ a) → c ≡ b → (k ≡ u) ⊎ (c ≡ a)
sorted_others k (inl e) f = inl e
sorted_others k (inr e) f = inr (f ∙ e)

module _ {S V J B : Type 0} where
  abbrev pub AreDistinct : List (JobCtx S V J B) → Type 0
  AreDistinct js = (k : ℕ) → count_uid k js ≤ 1

  -- From the job that was updated first to the one that was updated last.
  abbrev pub IsAscending : List (JobCtx S V J B) → Type 0
  IsAscending [] = Unit
  IsAscending (j ∷ js) = All (λ k. j.update_seq ≤ k.update_seq) js × IsAscending js

  count_uid-insert :
      (k : ℕ) (j : JobCtx S V J B) (js : List (JobCtx S V J B))
      → count_uid k (insert_by_seq j js) ≡ count_uid k (j ∷ js)
  unfolding insert_by_seq count_uid
  count_uid-insert k j [] = refl
  count_uid-insert k j (i ∷ js) = ground (arith, count_uid-insert k j js)

  count_uid-sort :
      (k : ℕ) (js : List (JobCtx S V J B)) → count_uid k (sort_by_update_seq js) ≡ count_uid k js
  unfolding sort_by_update_seq count_uid
  count_uid-sort k [] = refl
  count_uid-sort k (j ∷ js) =
      ground (arith, count_uid-insert k j (sort_by_update_seq js), count_uid-sort k js)

  by_uid-insert :
      (k : ℕ) (j : JobCtx S V J B) (js : List (JobCtx S V J B))
      → count_uid j.uid js ≡ 0
      → by_uid k (insert_by_seq j js) ≡ by_uid k (j ∷ js)
  unfolding insert_by_seq by_uid count_uid
  by_uid-insert k j [] h = refl
  by_uid-insert k j (i ∷ js) h = ground (arith, by_uid-insert k j js)

  by_uid-sort :
      (k : ℕ) (js : List (JobCtx S V J B))
      → AreDistinct js
      → by_uid k (sort_by_update_seq js) ≡ by_uid k js
  unfolding sort_by_update_seq by_uid count_uid
  by_uid-sort k [] d = refl
  by_uid-sort k (j ∷ js) d =
      let d' : AreDistinct js = λ i. ground (arith, d i) in
      ground (
        arith,
        d j.uid,
        count_uid-sort j.uid js,
        by_uid-insert k j (sort_by_update_seq js),
        by_uid-sort k js d',
      )

  All-insert :
      (n : ℕ) (j : JobCtx S V J B) (js : List (JobCtx S V J B))
      → n ≤ j.update_seq
      → All (λ k. n ≤ k.update_seq) js
      → All (λ k. n ≤ k.update_seq) (insert_by_seq j js)
  unfolding insert_by_seq
  All-insert n j [] h a = (h, tt)
  All-insert n j (i ∷ js) h a = ground (arith, All-insert n j js h a.1)

  insert-IsAscending :
      (j : JobCtx S V J B) (js : List (JobCtx S V J B))
      → IsAscending js
      → IsAscending (insert_by_seq j js)
  unfolding insert_by_seq
  insert-IsAscending j [] a = (tt, tt)
  insert-IsAscending j (i ∷ js) a =
      let later = λ (p : j.update_seq ≤ i.update_seq).
        All-map (λ k. i.update_seq ≤ k.update_seq) (λ k. j.update_seq ≤ k.update_seq) js
          (λ k h. omega (arith, h, p)) a.0 in
      ground (arith, later, insert-IsAscending j js a.1, All-insert i.update_seq j js)

  sort-IsAscending : (js : List (JobCtx S V J B)) → IsAscending (sort_by_update_seq js)
  unfolding sort_by_update_seq
  sort-IsAscending [] = tt
  sort-IsAscending (j ∷ js) = insert-IsAscending j (sort_by_update_seq js) (sort-IsAscending js)

  by_uid-snoc :
      (k : ℕ) (xs : List (JobCtx S V J B)) (j : JobCtx S V J B)
      → by_uid k xs ≡ none
      → (j.uid == k) ≡ false
      → by_uid k (xs ++ j ∷ []) ≡ none
  unfolding by_uid
  by_uid-snoc k [] j h p = ground (arith, p)
  by_uid-snoc k (x ∷ xs) j h p = ground (arith, by_uid-snoc k xs j)

  by_uid-middle_ne :
      (k : ℕ) (i j : JobCtx S V J B) (xs ys : List (JobCtx S V J B))
      → i.uid ≡ j.uid
      → k ≢ i.uid
      → by_uid k (xs ++ i ∷ ys) ≡ by_uid k (xs ++ j ∷ ys)
  unfolding by_uid
  by_uid-middle_ne k i j [] ys e ne = ground (arith, e, ne)
  by_uid-middle_ne k i j (x ∷ xs) ys e ne = ground (arith, by_uid-middle_ne k i j xs ys e ne)

  -- What `by_uid_mut` finds.
  abbrev FindsMut : ℕ → List (JobCtx S V J B) → Option (Found (JobCtx S V J B)) → Type 0
  FindsMut uid js none = by_uid uid js ≡ none
  FindsMut uid js (some z) = (js ≡ z.before ++ z.entry ∷ z.after) × (z.entry.uid ≡ uid)

  by_uid_mut-FindsMut :
      (uid : ℕ) (before js : List (JobCtx S V J B))
      → by_uid uid before ≡ none
      → FindsMut uid (before ++ js) (by_uid_mut uid before js)
  unfolding by_uid_mut
  by_uid_mut-FindsMut uid before [] h = rw (append-nil before) h
  by_uid_mut-FindsMut uid before (j ∷ js) h = elim (Bool-cases (j.uid == uid)) [
    | inl p ↦ rw (p, FindsMut) (refl, (==_iff j.uid uid).0 p)
    | inr p ↦
        rw (p, FindsMut)
          (subst (λ xs. FindsMut uid xs (by_uid_mut uid (before ++ j ∷ []) js))
            (append_assoc before (j ∷ []) js)
            (by_uid_mut-FindsMut uid (before ++ j ∷ []) js (by_uid-snoc uid before j h p)))
  ]

  -- A job in the middle that is replaced by one with its number.
  module _ (z : Found (JobCtx S V J B)) (j : JobCtx S V J B) (same : j.uid ≡ z.entry.uid) where
    count_uid-replaced :
        (k : ℕ)
        → count_uid k (z.before ++ j ∷ z.after) ≡ count_uid k (z.before ++ z.entry ∷ z.after)
    unfolding count_uid
    count_uid-replaced k = ground (
      arith,
      count_uid-append k z.before (j ∷ z.after),
      count_uid-append k z.before (z.entry ∷ z.after),
    )

  -- The list after an update of the job `j`, with the sequence number `seq`.
  pub record IsUpdated (studying : Bool) (j : JobCtx S V J B) (seq : ℕ)
      (before after : List (JobCtx S V J B)) : Type 0 where
    pub updated :
        (k : JobCtx S V J B) × (by_uid j.uid after ≡ some k)
        × (k.job_data ≡ j.job_data)
        × (k.update_seq ≡ seq)
    pub others : (k : ℕ) → (k ≡ j.uid) ⊎ (by_uid k after ≡ by_uid k before)
    pub distinct : AreDistinct after
    pub ascending : (studying ≡ true) ⊎ IsAscending after

  sorted_after :
      (studying : Bool) (j : JobCtx S V J B) (seq : ℕ) (before js : List (JobCtx S V J B))
      → IsUpdated true j seq before js
      → IsUpdated studying j seq before (if studying then js else sort_by_update_seq js)
  sorted_after true j seq before js u = u
  sorted_after false j seq before js u =
      let (k, here, same, is) = u.updated in
      record {
        updated = (k, by_uid-sort j.uid js u.distinct ∙ here, same, is);
        others = λ i. sorted_others i (u.others i) (by_uid-sort i js u.distinct);
        distinct = λ i. omega (arith, u.distinct i, count_uid-sort i js);
        ascending = inr (sort-IsAscending js);
      }

  entry-IsUpdated :
      (j : JobCtx S V J B) (seq : ℕ) (jobs : List (JobCtx S V J B)) (z : Found (JobCtx S V J B))
      → AreDistinct jobs
      → jobs ≡ z.before ++ z.entry ∷ z.after
      → z.entry.uid ≡ j.uid
      → IsUpdated true j seq jobs
          (replaced z (record z.entry { update_seq = seq; job_data = j.job_data }))
  unfolding replaced count_uid
  entry-IsUpdated j seq jobs z d is same =
      let new : JobCtx S V J B = record z.entry { update_seq = seq; job_data = j.job_data } in
      let free : count_uid new.uid z.before ≡ 0 = ground (
        arith,
        d z.entry.uid,
        ap (count_uid z.entry.uid) is,
        count_uid-append z.entry.uid z.before (z.entry ∷ z.after),
      ) in
      record {
        updated = (
          new,
          subst (λ u. by_uid u (z.before ++ new ∷ z.after) ≡ some new) same
              (by_uid-middle z.before new z.after free),
          refl,
          refl,
        );
        others = λ k. elim (Bool-cases (k == j.uid)) [
          | inl p ↦ inl ((==_iff k j.uid).0 p)
          | inr p ↦ inr (
              by_uid-middle_ne k new z.entry z.before z.after refl (ground (arith, p, same))
              ∙ sym (ap (by_uid k) is))
        ];
        distinct = λ k. ground (
          arith,
          d k,
          ap (count_uid k) is,
          count_uid-append k z.before (new ∷ z.after),
          count_uid-append k z.before (z.entry ∷ z.after),
        );
        ascending = inl refl;
      }

  -- `update_incremental_jctx` finds the job by its number and returns. Its entry then has the data of
  -- the run and the next sequence number, all other entries are found as before, and unless the run
  -- only studies, the list is in the order of the updates. The numbers in the list are distinct.
  pub update-IsUpdated :
      (studying : Bool) (j old : JobCtx S V J B) (jobs : List (JobCtx S V J B)) (seq : ℕ)
      → AreDistinct jobs
      → by_uid j.uid jobs ≡ some old
      → (after : List (JobCtx S V J B)) × (update_incremental_jctx studying j jobs seq
          ≡ ok (after, add64 seq 1))
        × IsUpdated studying j seq jobs after
  unfolding update_incremental_jctx replaced by_uid
  update-IsUpdated studying j old jobs seq d here = elim (Option-cases (by_uid_mut j.uid [] jobs)) [
    | inl p ↦ ground (arith, subst (FindsMut j.uid jobs) p (by_uid_mut-FindsMut j.uid [] jobs refl))
    | inr (z, p) ↦
        (let (is, same) = subst (FindsMut j.uid jobs) p (by_uid_mut-FindsMut j.uid [] jobs refl) in
          let new : JobCtx S V J B = record z.entry { update_seq = seq; job_data = j.job_data } in
          (
            (if studying then replaced z new else sort_by_update_seq (replaced z new)),
            rw (p, update_incremental_jctx) refl,
            sorted_after studying j seq jobs (replaced z new)
                (entry-IsUpdated j seq jobs z d is same),
          ))
  ]
