-- ===== src/Vmm/Rewrite.antt =====
-- What one written entry does to the tree of page tables (kernel/src/hal/vmm.cpp).
use mathlib.Core.List.{append_assoc}
use system.Base.{
  ℕ, ◌≤◌, ◌<◌, ◌≡◌, ◌≢◌, ◌⊎◌, inl, inr, refl, sym, ap, ◌∙◌, arith, List, [], ◌∷◌, ◌++◌, length,
  length-append, All,
}
use system.Memory.{Memory}
use system.Blocks.{Blocks, Apart}
use system.Pmm.Invariant.{IsPages}
use system.Vmm.{present, page_size}
use system.Vmm.Tree.{word, child, Reach, view, IsPath, Tables, Reach-snoc, view-snoc}
use system.Vmm.Written.{
  All-left, All-right, Rewritten, present-cases, word-same, entry-cases, slot-path, Reach-kept,
  Reach-old,
}

module _ {hhdm : ℕ} {m m' : Memory} {root : ℕ} {is : List ℕ} {t i e' : ℕ} {bs : Blocks}
    (tables : Tables hhdm m root bs) (r : Rewritten hhdm m m' root is t i e') where
  -- The view of a path that goes through the new entry was empty, and is.
  view-through :
      (pre ks : List ℕ) (u j k : ℕ)
      → length (pre ++ j ∷ k ∷ ks) ≤ 4
      → All (λ x. x < 512) (pre ++ j ∷ k ∷ ks)
      → pre ≡ is
      → u ≡ t
      → j ≡ i
      → view hhdm m' u (j ∷ k ∷ ks) ≡ view hhdm m u (j ∷ k ∷ ks)
  view-through pre ks u j k short below e eu ej = elim r.kind [
    | inl lowest ↦ absurd (omega (arith, length-append pre (j ∷ k ∷ ks), ap length e))
    | inr (absent, empty) ↦
        let zero_entry = empty k (All-right pre (j ∷ k ∷ ks) below).1.0 in
        rw (eu, ej, r.new, r.lit, absent) (view-empty ks zero_entry)
  ]
    where
      view-empty :
          (ks : List ℕ) → word m' (child hhdm e') k ≡ 0 → view hhdm m' (child hhdm e') (k ∷ ks) ≡ 0
      view-empty [] z = z
      view-empty (l ∷ ls) z = rw z

  -- The view of every other path is what it was.
  view-kept :
      (pre js : List ℕ) (u j : ℕ)
      → length (pre ++ j ∷ js) ≤ 4
      → All (λ x. x < 512) (pre ++ j ∷ js)
      → Reach hhdm m root pre u
      → pre ++ j ∷ js ≢ is ++ i ∷ []
      → view hhdm m' u (j ∷ js) ≡ view hhdm m u (j ∷ js)
  view-kept pre [] u j short below reach other =
      let q : IsPath pre =
        (omega (arith, length-append pre (j ∷ [])), All-left pre (j ∷ []) below) in
      elim (entry-cases tables r u j) [
        | inr apart ↦ word-same tables r pre u j q reach (All-right pre (j ∷ []) below).0 apart
        | inl (eu, ej) ↦ absurd (other (rw (slot-path tables r pre u q reach eu, ej)))
      ]
  view-kept pre (k ∷ ks) u j short below reach other =
      let q : IsPath pre =
        (omega (arith, length-append pre (j ∷ k ∷ ks)), All-left pre (j ∷ k ∷ ks) below) in
      let e = append_assoc pre (j ∷ []) (k ∷ ks) in
      elim (entry-cases tables r u j) [
        | inl (eu, ej) ↦
            view-through pre ks u j k short below (slot-path tables r pre u q reach eu) eu ej
        | inr apart ↦
            let same =
              word-same tables r pre u j q reach (All-right pre (j ∷ k ∷ ks) below).0 apart in
            elim (present-cases (word m u j)) [
              | inl absent ↦ rw (same, absent)
              | inr here ↦
                  rw (same, here)
                    (view-kept (pre ++ j ∷ []) ks (child hhdm (word m u j)) k (rw e short)
                      (rw e below) (Reach-snoc hhdm m pre root u j reach here) (rw e other))
            ]
      ]

  -- The view of the written entry.
  pub view-new : view hhdm m' root (is ++ i ∷ []) ≡ e'
  view-new =
      view-snoc hhdm m' is root t i (Reach-kept tables r [] is root t r.path refl r.reach) ∙ r.new

  -- The view of every other path from the root.
  pub view-other :
      (j : ℕ) (js : List ℕ)
      → length js ≤ 3
      → All (λ x. x < 512) (j ∷ js)
      → j ∷ js ≢ is ++ i ∷ []
      → view hhdm m' root (j ∷ js) ≡ view hhdm m root (j ∷ js)
  view-other j js short below other = view-kept [] js root j (omega arith) below refl other

  pub Reach-rewritten : Reach hhdm m' root is t
  Reach-rewritten = Reach-kept tables r [] is root t r.path refl r.reach

  -- The written tree is a tree again, for free blocks that its tables do not meet.
  pub Tables-rewritten :
      (bs' : Blocks)
      → ((js : List ℕ) (x : ℕ) → IsPath js → Reach hhdm m root js x → Apart x 4096 bs')
      → (length is ≢ 3 → IsPages hhdm (child hhdm e') 4096)
      → (length is ≢ 3 → Apart (child hhdm e') 4096 bs')
      → ((js : List ℕ) (x : ℕ)
          → IsPath js
          → Reach hhdm m root js x
          → length is ≢ 3
          → x ≢ child hhdm e')
      → (length is ≤ 2 → page_size e' ≡ 0)
      → Tables hhdm m' root bs'
  Tables-rewritten bs' free' page' apart' fresh small' = record {
    page = λ js x p reach. elim (old js x p reach) [
      | inl before ↦ tables.page js x p before
      | inr (_, e, high) ↦ rw e (page' high)
    ];
    unique = λ js ks x p q reach reach'. elim (old js x p reach) [
      | inl before ↦ elim (old ks x q reach') [
        | inl before' ↦ tables.unique js ks x p q before before'
        | inr (_, e, high) ↦ absurd (fresh js x p before high e)
      ]
      | inr (path, e, high) ↦ elim (old ks x q reach') [
        | inl before' ↦ absurd (fresh ks x q before' high e)
        | inr (path', _, _) ↦ path ∙ sym path'
      ]
    ];
    free = λ js x p reach. elim (old js x p reach) [
      | inl before ↦ free' js x p before
      | inr (_, e, high) ↦ rw e (apart' high)
    ];
    clean = λ js x k p reach lt absent. elim (old js x p reach) [
      | inl before ↦ elim (entry-cases tables r x k) [
        | inr apart ↦
            let same = word-same tables r js x k p before lt apart in
            rw same (tables.clean js x k p before lt (rw same at absent))
        | inl (ex, ek) ↦
            let new : word m' x k ≡ e' = rw (ex, ek) r.new in
            let dark : present e' ≡ 0 = rw new at absent in absurd (omega (arith, r.lit))
      ]
      | inr (_, e, high) ↦ rw e (emptied high k lt)
    ];
    small = λ js x k p high reach lt. elim (old js x p reach) [
      | inl before ↦ elim (entry-cases tables r x k) [
        | inr apart ↦
            rw (word-same tables r js x k p before lt apart) (tables.small js x k p high before lt)
        | inl (ex, ek) ↦
            let new : word m' x k ≡ e' = rw (ex, ek) r.new in
            rw new (small' (omega (arith, ap length (slot-path tables r js x p before ex))))
      ]
      | inr (_, e, new) ↦ let z = emptied new k lt in rw (e, z)
    ];
  }
    where
      old :
          (js : List ℕ) (x : ℕ)
          → IsPath js
          → Reach hhdm m' root js x
          → Reach hhdm m root js x ⊎ ((js ≡ is ++ i ∷ []) × (x ≡ child hhdm e') × (length is ≢ 3))
      old js x p reach = Reach-old tables r [] js root x p refl reach

      emptied : length is ≢ 3 → (k : ℕ) → k < 512 → word m' (child hhdm e') k ≡ 0
      emptied high k lt = elim r.kind [
        | inl lowest ↦ absurd (high lowest)
        | inr (_, empty) ↦ empty k lt
      ]
