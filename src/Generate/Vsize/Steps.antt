-- ===== src/Generate/Vsize/Steps.antt =====
-- Parent directories and the first occurrence of an object, of ioriot/src/generate/vsize.c.
use ioriot.Prelude.{
  ◌∙◌, sym, ℕ, ◌-◌, ◌≤◌, ◌<◌, ◌≡◌, ◌≢◌, refl, subst, false, arith, inl, inr, Bool-cases,
}
use native.Mathlib.Decide.{ℕ_discrete}
use ioriot.Generate.PathMap.{Bytes, PathMap}
use ioriot.Generate.State.{
  Vsize, Store, deref, modify, create, init_parent_dir, touch, set_inserted, set_dir, set_required,
}
use ioriot.Generate.Vsize.{at_first}
use ioriot.Generate.Vsize.Inv.{IsTame, IsValid, object-modify, modify-IsValid}
use ioriot.Generate.Vsize.Paths.{create-IsLookup, object-create}

module _ (paths : PathMap) where
  -- The store is in order, and every known path still has its object.
  pub record IsStep (g g' : Store paths) : Type 0 where
    pub valid : IsValid paths g'
    pub grown : g.num_vsizes ≤ g'.num_vsizes
    pub others :
        (q : Bytes)
        → paths.get g.vsize_map q ≢ 0
        → paths.get g'.vsize_map q ≡ paths.get g.vsize_map q

  pub stay : (g : Store paths) → IsValid paths g → IsStep g g
  stay g valid = record { valid = valid; grown = omega arith; others = λ q h. refl }

  pub follow : {g1 g2 g3 : Store paths} → IsStep g1 g2 → IsStep g2 g3 → IsStep g1 g3
  follow a b = record {
    valid = b.valid;
    grown = omega (arith, a.grown, b.grown);
    others = λ q h. b.others q (λ e. h (sym (a.others q h) ∙ e)) ∙ a.others q h;
  }

  pub modify-IsStep :
      (g g' : Store paths) (v : ℕ) (f : Vsize → Vsize)
      → IsStep g g'
      → v - 1 < g.num_vsizes
      → IsTame f
      → IsStep g (modify paths g' v f)
  modify-IsStep g g' v f step inside tame = record {
    valid = modify-IsValid paths g' v f step.valid (omega (arith, step.grown)) tame;
    grown = step.grown;
    others = step.others;
  }

  module _ (dirname : Bytes → Bytes) where
    pub init_parent_dir-IsStep :
        (g : Store paths) (path : Bytes)
        → IsValid paths g
        → IsStep g (init_parent_dir paths dirname g path)
    unfolding init_parent_dir
    init_parent_dir-IsStep g path valid =
        let parent = dirname path in
        let v = paths.get g.vsize_map parent in
        let to_parent = λ (v : Vsize). touch (set_inserted (set_dir (set_required v))) in
        elim (ℕ_discrete v 0) [
          | yes absent ↦
              let made =
                create-IsLookup paths g parent to_parent valid absent
                  (λ v h. (refl, refl, (refl, refl, refl, refl))) in
              subst (IsStep g) {x = (create paths g parent to_parent).1} (ground arith)
                (record { valid = made.valid; grown = made.grown; others = made.others })
          | no present ↦ elim (Bool-cases (deref paths g v).unsure) [
            | inl unsure ↦
                subst (IsStep g) {x = modify paths g v (λ v. touch (set_dir v))} (ground arith) (
                  modify-IsStep g g v (λ v. touch (set_dir v)) (stay g valid)
                    (omega (arith, valid.bounded parent))
                    (λ v h. (refl, refl, (refl, refl, refl, refl))))
            | inr sure ↦ subst (IsStep g) {x = g} (ground arith) (stay g valid)
          ]
        ]

    pub at_first-IsStep :
        (g : Store paths) (v : ℕ) (path : Bytes) (f : Vsize → Vsize)
        → IsValid paths g
        → v - 1 < g.num_vsizes
        → IsTame f
        → IsStep g (at_first paths dirname g v path f)
    at_first-IsStep g v path f valid inside tame = elim (ℕ_discrete (deref paths g v).updates 0) [
      | yes first ↦
          subst (IsStep g)
            {x = modify paths (init_parent_dir paths dirname g path) v (λ o. touch (f o))}
            (ground arith)
            (modify-IsStep g (init_parent_dir paths dirname g path) v (λ o. touch (f o))
              (init_parent_dir-IsStep g path valid) inside (λ o h. tame o h))
      | no later ↦ subst (IsStep g) {x = g} (ground arith) (stay g valid)
    ]

    -- After such a call the object counts as updated.
    at_first-updated :
        (g : Store paths) (v : ℕ) (path : Bytes) (f : Vsize → Vsize)
        → IsValid paths g
        → v - 1 < g.num_vsizes
        → (deref paths (at_first paths dirname g v path f) v).updates ≢ 0
    at_first-updated g v path f valid inside = elim (ℕ_discrete (deref paths g v).updates 0) [
      | yes first ↦
          let g1 = init_parent_dir paths dirname g path in
          let step = init_parent_dir-IsStep g path valid in
          subst (λ g2. (deref paths g2 v).updates ≢ 0) {x = modify paths g1 v (λ o. touch (f o))}
            {y = at_first paths dirname g v path f} (ground arith)
            (ground (
              arith,
              object-modify paths g1 v (v - 1) (λ o. touch (f o))
                  (omega (arith, inside, step.grown, step.valid.counted)),
            ))
      | no later ↦
          subst (λ g2. (deref paths g2 v).updates ≢ 0) {x = g}
            {y = at_first paths dirname g v path f} (ground arith) later
    ]

    at_first_later :
        (g : Store paths) (v : ℕ) (path : Bytes) (f : Vsize → Vsize)
        → (deref paths g v).updates ≢ 0
        → at_first paths dirname g v path f ≡ g
    at_first_later g v path f later = ground arith

    -- Of two calls in a row for the same object of a store in order that act at its first
    -- occurrence only, the second changes nothing, whatever the two do.
    pub at_first_once :
        (g : Store paths) (v : ℕ) (path path2 : Bytes) (f f2 : Vsize → Vsize)
        → IsValid paths g
        → v - 1 < g.num_vsizes
        → at_first paths dirname (at_first paths dirname g v path f) v path2 f2
          ≡ at_first paths dirname g v path f
    at_first_once g v path path2 f f2 valid inside =
        at_first_later (at_first paths dirname g v path f) v path2 f2
          (at_first-updated g v path f valid inside)

    -- In a store in order, once the parent directory of a path is seen to, it has an object, and
    -- that object is not unsure.
    pub init_parent_dir_sure :
        (g : Store paths) (path : Bytes)
        → IsValid paths g
        → let g' = init_parent_dir paths dirname g path in
          let v = paths.get g'.vsize_map (dirname path) in
          (v ≢ 0) × ((deref paths g' v).unsure ≡ false)
    unfolding init_parent_dir
    init_parent_dir_sure g path valid =
        let parent = dirname path in
        let v = paths.get g.vsize_map parent in
        let goal = λ (g' : Store paths).
          (paths.get g'.vsize_map parent ≢ 0)
          × ((deref paths g' (paths.get g'.vsize_map parent)).unsure ≡ false) in
        elim (ℕ_discrete v 0) [
          | yes absent ↦
              let to_parent = λ (v : Vsize). touch (set_inserted (set_dir (set_required v))) in
              let made =
                create-IsLookup paths g parent to_parent valid absent
                  (λ v h. (refl, refl, (refl, refl, refl, refl))) in
              subst goal {x = (create paths g parent to_parent).1}
                {y = init_parent_dir paths dirname g path} (ground arith)
                (
                  ground (arith, made.known),
                  ground (
                    arith,
                    made.known,
                    object-create paths g parent to_parent valid g.num_vsizes,
                  ),
                )
          | no present ↦ elim (Bool-cases (deref paths g v).unsure) [
            | inl unsure ↦
                subst goal {x = modify paths g v (λ v. touch (set_dir v))}
                  {y = init_parent_dir paths dirname g path} (ground arith)
                  (
                    present,
                    ground (
                      arith,
                      object-modify paths g v (v - 1) (λ v. touch (set_dir v))
                          (omega (arith, valid.bounded parent, valid.counted)),
                    ),
                  )
            | inr sure ↦
                subst goal {x = g} {y = init_parent_dir paths dirname g path} (ground arith)
                  (present, sure)
          ]
        ]
