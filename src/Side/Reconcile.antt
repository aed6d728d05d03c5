-- ===== src/Side/Reconcile.antt =====
-- `apply_sysloads` and `apply_sideloads` of rd-agent/src/side.rs, and that they reach their target.
use resctl_demo.Prelude.{
  ◌≡◌, refl, List, [], ◌∷◌, ◌++◌, Option, none, some, Bool, true, false, ◌&&◌, ◌||◌, not, arith,
  if◌then◌else◌, Option-cases, ◌⊎◌, inl, inr,
}
use resctl_demo.Text.{Text, text_ord, cmp_text, cmp_text-eq_iff}
use resctl_demo.BTreeMap.{get, insert, remove, is_eq, get-insert, get-remove}
use resctl_demo.Side.{
  SideOps, SideloadSpec, Sysload, Sideload, is_some, make_sysload, make_sideload,
}

abbrev pub has : Text → List Text → Bool
has k [] = false
has k (j ∷ js) = is_eq (cmp_text k j) || has k js

-- The keys of one map that another one lacks: `difference` of the sets of keys.
unfoldable pub missing {ℓ κ} :
    {A : Type ℓ} {B : Type κ} → List (Text × A) → List (Text × B) → List Text
unfolding get
missing [] n = []
missing ((k, v) ∷ m) n = let rest = missing m n in if is_some (get k n) then rest else k ∷ rest

module _ {S : Type 0} where
  abbrev pub push_gone : Option S → List S → List S
  push_gone none removed = removed
  push_gone (some s) removed = removed ++ s ∷ []

  -- The loop over the goners: they leave the map and go to the list of what was removed.
  pub remove_all : List Text → List (Text × S) → List S → List (Text × S) × List S
  unfolding remove get
  remove_all [] m removed = (m, removed)
  remove_all (k ∷ ks) m removed = remove_all ks (remove k m) (push_gone (get k m) removed)

  get-remove_all :
      (ks : List Text) (m : List (Text × S)) (removed : List S) (k : Text)
      → get k (remove_all ks m removed).0 ≡ (if has k ks then none else get k m)
  unfolding remove_all
  get-remove_all [] m removed k = refl
  get-remove_all (j ∷ js) m removed k =
      ground
        (arith, get-remove_all js (remove j m) (push_gone (get j m) removed) k, get-remove j k m)

  -- The names added are there, and the others are as they were.
  abbrev IsAdded : List Text → Text → List (Text × S) → List (Text × S) → Type 0
  IsAdded ks k m n =
      (is_some (get k n) ≡ (has k ks || is_some (get k m)))
      × ((has k ks ≡ true) ⊎ (get k n ≡ get k m))

  -- Which loads there are after an application, and that those in the target that were there
  -- already have been left alone.
  abbrev pub IsApplied : List (Text × Text) → List (Text × S) → List (Text × S) → Type 0
  IsApplied target before after =
      (k : Text)
      → (is_some (get k after) ≡ is_some (get k target))
        × (((is_some (get k target) && is_some (get k before)) ≡ false)
            ⊎ (get k after ≡ get k before))

-- The order keeps the names.
abbrev pub IsOrder : (List Text → List Text) → Type 0
IsOrder order = (ks : List Text) (k : Text) → has k (order ks) ≡ has k ks

has-missing :
    {A B : Type 0} (m : List (Text × A)) (n : List (Text × B)) (k : Text)
    → has k (missing m n) ≡ (is_some (get k m) && not (is_some (get k n)))
unfolding missing get
has-missing [] n k = refl
has-missing ((j, v) ∷ m) n k = ground (arith, has-missing m n k, cmp_text-eq_iff k j)

module _ {S W : Type 0} where
  -- The loop over the names to come, which ends at the first that fails.
  pub add_all :
      (Text → W → Option S × W) → List Text → List (Text × S) → W → Bool × List (Text × S) × W
  unfolding insert
  add_all make [] m w = (true, m, w)
  add_all make (k ∷ ks) m w =
      let (s, w) = make k w in
      elim s [ none ↦ (false, m, w) | some s ↦ add_all make ks (insert k s m) w ]

  abbrev pub make_target :
      (Text → Text → W → Option S × W) → List (Text × Text) → Text → W → Option S × W
  make_target make target name w = elim (get name target) [
    | none ↦ (none, w)
    | some id ↦ make name id w
  ]

  -- What both functions do: `order` is the order of the sets.
  pub apply_loads :
      (Text → Text → W → Option S × W)
      → (List Text → List Text)
      → List (Text × Text)
      → List (Text × S)
      → W
      → Bool × List (Text × S) × List S × W
  unfolding missing remove_all add_all
  apply_loads make order target loads w =
      let (kept, removed) = remove_all (order (missing loads target)) loads [] in
      let (success, m, w) =
        add_all (make_target make target) (order (missing target loads)) kept w in
      (success, m, removed, w)

  add_all-IsAdded :
      (make : Text → W → Option S × W) (ks : List Text) (m : List (Text × S)) (w : W) (k : Text)
      → (add_all make ks m w).0 ≡ true
      → IsAdded ks k m (add_all make ks m w).1
  unfolding add_all
  add_all-IsAdded make [] m w k h = (refl, inr refl)
  add_all-IsAdded make (j ∷ js) m w k h = elim (Option-cases (make j w).0) [
    | inl e ↦ ground (arith, e, h)
    | inr (s, e) ↦
        ground
          (arith, e, h, add_all-IsAdded make js (insert j s m) (make j w).1 k, get-insert j k s m)
  ]

  apply_loads-IsApplied :
      (make : Text → Text → W → Option S × W) (order : List Text → List Text)
      (target : List (Text × Text)) (loads : List (Text × S)) (w : W)
      → IsOrder order
      → (apply_loads make order target loads w).0 ≡ true
      → IsApplied target loads (apply_loads make order target loads w).1
  unfolding apply_loads
  apply_loads-IsApplied make order target loads w o h k =
      let goners = order (missing loads target) in
      let kept = (remove_all goners loads []).0 in
      let added =
        add_all-IsAdded (make_target make target) (order (missing target loads)) kept w k h in
      ground (
        arith,
        added,
        o (missing loads target) k,
        o (missing target loads) k,
        has-missing loads target k,
        has-missing target loads k,
        get-remove_all goners loads [] k,
      )

pub record SideRunner (Svc U : Type 0) : Type 0 where
  pub sysloads : List (Text × Sysload Svc)
  pub sideloads : List (Text × Sideload U)

pub stop : {Svc U : Type 0} → SideRunner Svc U → SideRunner Svc U
stop s = record s { sysloads = [] }

module _ {W Svc U : Type 0} (ops : SideOps W Svc U) (order : List Text → List Text)
    (defs : List (Text × SideloadSpec)) where
  -- Whether it succeeded, the runner, what was removed, and the machine.
  unfoldable pub apply_sysloads :
      List (Text × Text) → SideRunner Svc U → W → Bool × SideRunner Svc U × List (Sysload Svc) × W
  unfolding apply_loads
  apply_sysloads target s w =
      let (success, loads, removed, w) =
        apply_loads (make_sysload ops defs) order target s.sysloads w in
      (success, record s { sysloads = loads }, removed, w)

  unfoldable pub apply_sideloads :
      List (Text × Text) → SideRunner Svc U → W → Bool × SideRunner Svc U × List (Sideload U) × W
  unfolding apply_loads
  apply_sideloads target s w =
      let (success, loads, removed, w) =
        apply_loads (make_sideload ops defs) order target s.sideloads w in
      (success, record s { sideloads = loads }, removed, w)

  -- An application of system loads that succeeds leaves loads of just the names in the target, and
  -- those of them that were there before are left alone, in whatever order the names are taken.
  pub apply_sysloads-IsApplied :
      (target : List (Text × Text)) (s : SideRunner Svc U) (w : W)
      → IsOrder order
      → (apply_sysloads target s w).0 ≡ true
      → IsApplied target s.sysloads (apply_sysloads target s w).1.sysloads
  unfolding apply_sysloads
  apply_sysloads-IsApplied target s w =
      apply_loads-IsApplied (make_sysload ops defs) order target s.sysloads w

  -- The same goes for the side loads.
  pub apply_sideloads-IsApplied :
      (target : List (Text × Text)) (s : SideRunner Svc U) (w : W)
      → IsOrder order
      → (apply_sideloads target s w).0 ≡ true
      → IsApplied target s.sideloads (apply_sideloads target s w).1.sideloads
  unfolding apply_sideloads
  apply_sideloads-IsApplied target s w =
      apply_loads-IsApplied (make_sideload ops defs) order target s.sideloads w
