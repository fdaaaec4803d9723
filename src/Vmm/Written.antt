-- ===== src/Vmm/Written.antt =====
-- One written entry of a page table (kernel/src/hal/vmm.cpp): which tables can be reached.
use mathlib.Core.List.{append_assoc}
use system.Base.{
  ℕ, ◌+◌, ◌%◌, ◌≤◌, ◌<◌, ◌≡◌, ◌≢◌, ◌⊎◌, inl, inr, sym, ap, ◌∙◌, arith, List, [], ◌∷◌, ◌++◌, length,
  length-append, All,
}
use system.Memory.{Memory, load64-same, Outside}
use system.Blocks.{Blocks}
use system.Vmm.{present, slot}
use system.Vmm.Tree.{word, child, Reach, IsPath, Tables, Reach-snoc}

pub All-left : (js ks : List ℕ) → All (λ j. j < 512) (js ++ ks) → All (λ j. j < 512) js
All-left [] ks h = tt
All-left (j ∷ js) ks h = (h.0, All-left js ks h.1)

pub All-right : (js ks : List ℕ) → All (λ j. j < 512) (js ++ ks) → All (λ j. j < 512) ks
All-right [] ks h = h
All-right (j ∷ js) ks h = All-right js ks h.1

-- `m'` holds a new entry `e'` at index `i` of table `t`, and the other tables' bytes are those of
-- `m`. Either the table is at the lowest level, or an empty entry now leads to an empty table.
pub record Rewritten (hhdm : ℕ) (m m' : Memory) (root : ℕ) (is : List ℕ) (t i e' : ℕ) : Type 0 where
  pub path : IsPath is
  pub reach : Reach hhdm m root is t
  pub below : i < 512
  pub same :
      (js : List ℕ) (x : ℕ)
      → IsPath js
      → Reach hhdm m root js x
      → (b : ℕ) → x ≤ b
      → b < x + 4096
      → Outside b (slot t i) 8
      → m' b ≡ m b
  pub new : word m' t i ≡ e'
  pub lit : present e' ≡ 1
  pub kind :
      (length is ≡ 3)
      ⊎ ((present (word m t i) ≡ 0) × ((j : ℕ) → j < 512 → word m' (child hhdm e') j ≡ 0))

slots-apart :
    (u t j i b : ℕ)
    → u % 4096 ≡ 0
    → t % 4096 ≡ 0
    → j < 512
    → i < 512
    → (u ≢ t) ⊎ (j ≢ i)
    → slot u j ≤ b
    → b < slot u j + 8
    → Outside b (slot t i) 8
slots-apart u t j i b au at lj li other lo hi = omega arith

pub present-cases : (e : ℕ) → (present e ≡ 0) ⊎ (present e ≡ 1)
present-cases e = omega arith

module _ {hhdm : ℕ} {m m' : Memory} {root : ℕ} {is : List ℕ} {t i e' : ℕ} {bs : Blocks}
    (tables : Tables hhdm m root bs) (r : Rewritten hhdm m m' root is t i e') where
  -- Every other entry is what it was.
  pub word-same :
      (js : List ℕ) (u j : ℕ)
      → IsPath js
      → Reach hhdm m root js u
      → j < 512
      → (u ≢ t) ⊎ (j ≢ i)
      → word m' u j ≡ word m u j
  word-same js u j p reach lt other =
      let here = tables.page js u p reach in
      let there = tables.page is t r.path r.reach in
      load64-same m m' (slot u j) (λ b lo hi.
        r.same js u p reach b (omega arith) (omega arith)
          (slots-apart u t j i b here.aligned there.aligned lt r.below other lo hi))

  -- Table and index of the written entry, or another.
  pub entry-cases : (u j : ℕ) → ((u ≡ t) × (j ≡ i)) ⊎ ((u ≢ t) ⊎ (j ≢ i))
  entry-cases u j = ground arith

  pub slot-path : (pre : List ℕ) (u : ℕ) → IsPath pre → Reach hhdm m root pre u → u ≡ t → pre ≡ is
  slot-path pre u p reach e = tables.unique pre is u p r.path reach (rw e r.reach)

  -- A step of a longer path is not through the written entry, unless that entry is new.
  step-same :
      (pre : List ℕ) (u j : ℕ)
      → IsPath (pre ++ j ∷ [])
      → Reach hhdm m root pre u
      → present (word m u j) ≡ 1
      → word m' u j ≡ word m u j
  step-same pre u j p reach here =
      let p' : IsPath pre =
        (omega (arith, length-append pre (j ∷ [])), All-left pre (j ∷ []) p.1) in
      elim (entry-cases u j) [
        | inr other ↦ word-same pre u j p' reach (All-right pre (j ∷ []) p.1).0 other
        | inl (eu, ej) ↦
            let e : pre ≡ is = slot-path pre u p' reach eu in
            let here' : present (word m t i) ≡ 1 = rw (eu, ej) at here in
            elim r.kind [
              | inl lowest ↦ absurd (omega (arith, length-append pre (j ∷ []), ap length e))
              | inr (absent, _) ↦ absurd (omega arith)
            ]
      ]

  IsPath-shift :
      (pre : List ℕ) (j : ℕ) (js : List ℕ) → IsPath (pre ++ j ∷ js) → IsPath ((pre ++ j ∷ []) ++ js)
  IsPath-shift pre j js p = rw (append_assoc pre (j ∷ []) js) p

  IsPath-left : (pre js : List ℕ) → IsPath (pre ++ js) → IsPath pre
  IsPath-left pre js p = (omega (arith, length-append pre js), All-left pre js p.1)

  -- Whatever could be reached still can.
  pub Reach-kept :
      (pre js : List ℕ) (u x : ℕ)
      → IsPath (pre ++ js)
      → Reach hhdm m root pre u
      → Reach hhdm m u js x
      → Reach hhdm m' u js x
  Reach-kept pre [] u x p reach onward = onward
  Reach-kept pre (j ∷ js) u x p reach onward =
      let p' = IsPath-shift pre j js p in
      let same = step-same pre u j (IsPath-left (pre ++ j ∷ []) js p') reach onward.0 in
      rw same (
        onward.0,
        Reach-kept (pre ++ j ∷ []) js (child hhdm (word m u j)) x p'
            (Reach-snoc hhdm m pre root u j reach onward.0) onward.1,
      )

  -- Through the new entry only its table can be reached.
  Reach-new :
      (pre js : List ℕ) (u j x : ℕ)
      → IsPath (pre ++ j ∷ js)
      → pre ≡ is
      → j ≡ i
      → word m' u j ≡ e'
      → Reach hhdm m' u (j ∷ js) x
      → (pre ++ j ∷ js ≡ is ++ i ∷ []) × (x ≡ child hhdm e') × (length is ≢ 3)
  Reach-new pre [] u j x p e ej new onward =
      let target : child hhdm e' ≡ x = rw new at onward.1 in
      (rw (e, ej), sym target, omega (arith, length-append pre (j ∷ []), ap length e))
  Reach-new pre (k ∷ ks) u j x p e ej new onward = elim r.kind [
    | inl lowest ↦ absurd (omega (arith, length-append pre (j ∷ k ∷ ks), ap length e))
    | inr (_, empty) ↦
        let here : present (word m' (child hhdm e') k) ≡ 1 = rw new at onward.1.0 in
        absurd (omega (arith, empty k (All-right pre (j ∷ k ∷ ks) p.1).1.0))
  ]

  -- Whatever can be reached could be, or is the table that the new entry leads to.
  pub Reach-old :
      (pre js : List ℕ) (u x : ℕ)
      → IsPath (pre ++ js)
      → Reach hhdm m root pre u
      → Reach hhdm m' u js x
      → Reach hhdm m u js x ⊎ ((pre ++ js ≡ is ++ i ∷ []) × (x ≡ child hhdm e') × (length is ≢ 3))
  Reach-old pre [] u x p reach onward = inl onward
  Reach-old pre (j ∷ js) u x p reach onward =
      let p' = IsPath-shift pre j js p in
      let q = IsPath-left pre (j ∷ js) p in
      let lt = (All-right pre (j ∷ js) p.1).0 in
      elim (entry-cases u j) [
        | inr other ↦
            let same = word-same pre u j q reach lt other in
            let here : present (word m u j) ≡ 1 = rw same at onward.0 in
            let onward' : Reach hhdm m' (child hhdm (word m u j)) js x = rw same at onward.1 in
            elim (Reach-old (pre ++ j ∷ []) js (child hhdm (word m u j)) x p'
              (Reach-snoc hhdm m pre root u j reach here) onward') [
                | inl old ↦ inl (here, old)
                | inr (e, target, high) ↦ inr (sym (append_assoc pre (j ∷ []) js) ∙ e, target, high)
              ]
        | inl (eu, ej) ↦
            inr
              (Reach-new pre js u j x p (slot-path pre u q reach eu) ej (rw (eu, ej) r.new) onward)
      ]
