-- ===== src/Vmm/Translate.antt =====
-- The processor's walk of the page tables (4-level paging), as a function of the four entries on the
-- way, and what one step of GetNextLevel does to it: nothing, for any address.
use native.Mathlib.Decide.{ℕ_discrete}
use system.Base.{
  ℕ, ◌+◌, ◌*◌, ◌%◌, ◌^◌, ◌≤◌, ◌<◌, ◌≡◌, ◌≢◌, inl, inr, refl, ap, ◌∙◌, arith, Option, none, some,
  List, [], ◌∷◌, ◌++◌, length, length-append, All, ◌==◌, if◌then◌else◌,
}
use system.Memory.{Memory}
use system.Machine.{Machine}
use system.Vmm.{field, present, page_size, physical_addr, index}
use system.Vmm.Tree.{word, child, view}
use system.Vmm.Written.{present-cases}
use system.Vmm.Descend.{Descended}

-- An entry of the second or third level with the page size bit set maps a large page.
unfoldable pub resolve : (e4 e3 e2 e1 virt : ℕ) → Option ℕ
resolve e4 e3 e2 e1 virt =
    if present e4 == 0
    then none
    else (if present e3 == 0
        then none
        else (if page_size e3 == 1
            then some (field 30 22 e3 * 2 ^ 30 + virt % 2 ^ 30)
            else (if present e2 == 0
                then none
                else (if page_size e2 == 1
                    then some (field 21 31 e2 * 2 ^ 21 + virt % 2 ^ 21)
                    else (if present e1 == 0
                        then none
                        else some (physical_addr e1 * 2 ^ 12 + virt % 2 ^ 12))))))

-- The indices of an address, from the top level down.
abbrev pub path1 : ℕ → List ℕ
path1 virt = index 39 virt ∷ []

abbrev pub path2 : ℕ → List ℕ
path2 virt = index 39 virt ∷ index 30 virt ∷ []

abbrev pub path3 : ℕ → List ℕ
path3 virt = index 39 virt ∷ index 30 virt ∷ index 21 virt ∷ []

abbrev pub path4 : ℕ → List ℕ
path4 virt = index 39 virt ∷ index 30 virt ∷ index 21 virt ∷ index 12 virt ∷ []

-- The physical address of `virt`, if it is mapped in the tables under `root`.
unfoldable pub translate : (hhdm : ℕ) → Memory → (root virt : ℕ) → Option ℕ
translate hhdm m root virt =
    resolve (view hhdm m root (path1 virt)) (view hhdm m root (path2 virt))
      (view hhdm m root (path3 virt)) (view hhdm m root (path4 virt)) virt

path_discrete : Discrete (List ℕ)
path_discrete = hlevel ℕ_discrete

-- Below an entry that is not present there is nothing.
view-below1 :
    (hhdm : ℕ) (m : Memory) (u j k : ℕ) (ks : List ℕ)
    → present (view hhdm m u (j ∷ [])) ≡ 0
    → view hhdm m u (j ∷ k ∷ ks) ≡ 0
view-below1 hhdm m u j k ks absent = rw absent

view-below2 :
    (hhdm : ℕ) (m : Memory) (u j k l : ℕ) (ls : List ℕ)
    → present (view hhdm m u (j ∷ k ∷ [])) ≡ 0
    → view hhdm m u (j ∷ k ∷ l ∷ ls) ≡ 0
view-below2 hhdm m u j k l ls absent = elim (present-cases (word m u j)) [
  | inl dark ↦ rw dark
  | inr here ↦ rw here (view-below1 hhdm m (child hhdm (word m u j)) k l ls (rw here at absent))
]

view-below3 :
    (hhdm : ℕ) (m : Memory) (u j k l n : ℕ)
    → present (view hhdm m u (j ∷ k ∷ l ∷ [])) ≡ 0
    → view hhdm m u (j ∷ k ∷ l ∷ n ∷ []) ≡ 0
view-below3 hhdm m u j k l n absent = elim (present-cases (word m u j)) [
  | inl dark ↦ rw dark
  | inr here ↦ rw here (view-below2 hhdm m (child hhdm (word m u j)) k l n [] (rw here at absent))
]

-- An entry that is not present may change, if no large page is made and nothing is below it.
resolve-absent1 :
    (e4 e3 e2 e1 f4 virt : ℕ)
    → present e4 ≡ 0
    → e3 ≡ 0
    → resolve f4 e3 e2 e1 virt ≡ resolve e4 e3 e2 e1 virt
unfolding resolve
resolve-absent1 e4 e3 e2 e1 f4 virt absent empty = rw (absent, empty) (ground arith)

resolve-absent2 :
    (e4 e3 e2 e1 f3 virt : ℕ)
    → present e3 ≡ 0
    → page_size f3 ≡ 0
    → e2 ≡ 0
    → resolve e4 f3 e2 e1 virt ≡ resolve e4 e3 e2 e1 virt
unfolding resolve
resolve-absent2 e4 e3 e2 e1 f3 virt absent small empty = rw (absent, small, empty) (ground arith)

resolve-absent3 :
    (e4 e3 e2 e1 f2 virt : ℕ)
    → present e2 ≡ 0
    → page_size f2 ≡ 0
    → e1 ≡ 0
    → resolve e4 e3 f2 e1 virt ≡ resolve e4 e3 e2 e1 virt
unfolding resolve
resolve-absent3 e4 e3 e2 e1 f2 virt absent small empty = rw (absent, small, empty) (ground arith)

pub resolve-cong :
    {e4 e3 e2 e1 f4 f3 f2 f1 : ℕ} (virt : ℕ)
    → e4 ≡ f4
    → e3 ≡ f3
    → e2 ≡ f2
    → e1 ≡ f1
    → resolve e4 e3 e2 e1 virt ≡ resolve f4 f3 f2 f1 virt
resolve-cong virt p4 p3 p2 p1 = λ i. resolve (p4 i) (p3 i) (p2 i) (p1 i) virt

pub indices-lt : (virt : ℕ) → All (λ x. x < 512) (path4 virt)
indices-lt virt = omega arith

module _ {hhdm : ℕ} {s : Machine} {root k : ℕ} {is : List ℕ} {i : ℕ} {r : Machine × ℕ}
    (d : Descended hhdm s root k is i r) (high : length is ≤ 2) where
  abbrev written : List ℕ
  written = is ++ i ∷ []

  abbrev before : List ℕ → ℕ
  before = view hhdm s.mem root

  abbrev after : List ℕ → ℕ
  after = view hhdm r.0.mem root

  same1 : (virt : ℕ) → path1 virt ≢ written → after (path1 virt) ≡ before (path1 virt)
  same1 virt ne = d.other (index 39 virt) [] (omega arith) (omega arith) ne

  same2 : (virt : ℕ) → path2 virt ≢ written → after (path2 virt) ≡ before (path2 virt)
  same2 virt ne = d.other (index 39 virt) (index 30 virt ∷ []) (omega arith) (omega arith) ne

  same3 : (virt : ℕ) → path3 virt ≢ written → after (path3 virt) ≡ before (path3 virt)
  same3 virt ne =
      d.other (index 39 virt) (index 30 virt ∷ index 21 virt ∷ []) (omega arith) (omega arith) ne

  same4 : (virt : ℕ) → after (path4 virt) ≡ before (path4 virt)
  same4 virt =
      d.other (index 39 virt) (index 30 virt ∷ index 21 virt ∷ index 12 virt ∷ []) (omega arith)
        (omega arith) (λ e. omega (arith, ap length e, length-append is (i ∷ [])))

  lengths : (js ks : List ℕ) → js ≡ written → length js ≢ length ks → ks ≢ written
  lengths js ks e ne e' = omega (arith, ap length e, ap length e')

  -- No address is translated differently after the step.
  pub translate-Descended :
      (virt : ℕ) → translate hhdm r.0.mem root virt ≡ translate hhdm s.mem root virt
  unfolding translate
  translate-Descended virt = elim d.entry [
    | inl kept ↦
        resolve-cong virt (same (path1 virt) kept (same1 virt))
          (same (path2 virt) kept (same2 virt)) (same (path3 virt) kept (same3 virt)) (same4 virt)
    | inr (absent, small) ↦ elim (path_discrete (path1 virt) written) [
      | yes e ↦
          resolve-cong virt refl (same2 virt (lengths (path1 virt) (path2 virt) e (omega arith)))
            (same3 virt (lengths (path1 virt) (path3 virt) e (omega arith))) (same4 virt)
          ∙ resolve-absent1 (before (path1 virt)) (before (path2 virt)) (before (path3 virt))
              (before (path4 virt)) (after (path1 virt)) virt (rw (← e) at absent)
              (view-below1 hhdm s.mem root (index 39 virt) (index 30 virt) [] (rw (← e) at absent))
      | no n1 ↦ elim (path_discrete (path2 virt) written) [
        | yes e ↦
            resolve-cong virt (same1 virt n1) refl
              (same3 virt (lengths (path2 virt) (path3 virt) e (omega arith))) (same4 virt)
            ∙ resolve-absent2 (before (path1 virt)) (before (path2 virt)) (before (path3 virt))
                (before (path4 virt)) (after (path2 virt)) virt (rw (← e) at absent)
                (rw (← e) at small)
                (view-below2 hhdm s.mem root (index 39 virt) (index 30 virt) (index 21 virt) []
                  (rw (← e) at absent))
        | no n2 ↦ elim (path_discrete (path3 virt) written) [
          | yes e ↦
              resolve-cong virt (same1 virt n1) (same2 virt n2) refl (same4 virt)
              ∙ resolve-absent3 (before (path1 virt)) (before (path2 virt)) (before (path3 virt))
                  (before (path4 virt)) (after (path3 virt)) virt (rw (← e) at absent)
                  (rw (← e) at small)
                  (view-below3 hhdm s.mem root (index 39 virt) (index 30 virt) (index 21 virt)
                    (index 12 virt) (rw (← e) at absent))
          | no n3 ↦ resolve-cong virt (same1 virt n1) (same2 virt n2) (same3 virt n3) (same4 virt)
        ]
      ]
    ]
  ]
    where
      same :
          (js : List ℕ)
          → after written ≡ before written
          → (js ≢ written → after js ≡ before js)
          → after js ≡ before js
      same js kept other = elim (path_discrete js written) [ yes e ↦ rw e kept | no ne ↦ other ne ]
