-- ===== src/UnionFind/Hang.antt =====
-- What hanging one root under another does to a forest.
use my_nn_engine.Prelude.{
  ℕ, ◌+◌, ◌≤◌, ◌<◌, ◌≡◌, ◌≢◌, refl, sym, ◌∙◌, subst, inl, inr, Bool, true, false, List, Option,
  some, length, length-set, get_elem?, set, ◌==◌, if◌then◌else◌, arith, Bool-cases,
  get_elem?-set_self, get_elem?-set_ne,
}
use my_nn_engine.Schedule.Alloc.Counts.{get_elem?_total, get_elem?-lt, get_elem?-set}
use my_nn_engine.UnionFind.{UnionFind, hang}
use my_nn_engine.UnionFind.Forest.{RootOf, at_root, up, rank_at, IsForest, set_there}

self_parent :
    (parents : List ℕ) (root z p : ℕ)
    → root ≡ z
    → get_elem? parents root ≡ some root
    → get_elem? parents z ≡ some p
    → p ≡ z
self_parent parents root z p r l e =
    let here : get_elem? parents z ≡ some z = subst (λ w. get_elem? parents w ≡ some w) r l in cc

pub rank_at-some : (ranks : List ℕ) (x n : ℕ) → get_elem? ranks x ≡ some n → rank_at ranks x ≡ n
rank_at-some ranks x n e = rw (rank_at, e) refl

-- A root `low` hangs under the root `high`.
hang-RootOf :
    (parents : List ℕ) (high low a t : ℕ)
    → get_elem? parents high ≡ some high
    → get_elem? parents low ≡ some low
    → high ≢ low
    → RootOf parents a t
    → RootOf (set parents low high) a (if t == low then high else t)
hang-RootOf parents high low a t h l ne (at_root z e) = elim (Bool-cases (z == low)) [
  | inl q ↦
      let same : z ≡ low = ground arith in
      rw (q, same)
        (up low high high
          (get_elem?-set_self parents low high (get_elem?-lt parents low {x = low} l)) ne
          (at_root high (get_elem?-set_ne parents low high high (λ r. ne (sym r)) ∙ h)))
  | inr q ↦
      let apart : low ≢ z = ground arith in
      rw q (at_root z (get_elem?-set_ne parents low z high apart ∙ e))
]
hang-RootOf parents high low a t h l ne (up z p s e ne' k) =
    let apart : low ≢ z = λ r. ne' (self_parent parents low z p r l e) in
    up z p (if s == low then high else s) (get_elem?-set_ne parents low z high apart ∙ e) ne'
      (hang-RootOf parents high low p s h l ne k)

raised-at :
    (b : Bool) (ranks : List ℕ) (high rh k : ℕ)
    → get_elem? ranks high ≡ some rh
    → rank_at (if b then set ranks high (rh + 1) else ranks) k
      ≡ (if b then (if high == k then rh + 1 else rank_at ranks k) else rank_at ranks k)
raised-at true ranks high rh k e = let g = get_elem?-set ranks high k (rh + 1) rh e in ground arith
raised-at false ranks high rh k e = refl

hang-IsForest :
    (n : ℕ) (parents ranks : List ℕ) (high low rh rl : ℕ)
    → IsForest n parents ranks
    → get_elem? parents high ≡ some high
    → get_elem? parents low ≡ some low
    → high ≢ low
    → get_elem? ranks high ≡ some rh
    → get_elem? ranks low ≡ some rl
    → rl ≤ rh
    → high < n
    → IsForest n (set parents low high) (if rh == rl then set ranks high (rh + 1) else ranks)
hang-IsForest n parents ranks high low rh rl f h l ne eh el le b = record {
  parents_length = omega (arith, length-set parents low high, f.parents_length);
  ranks_length = ground (arith, length-set ranks high (rh + 1), f.ranks_length);
  inside = λ y p e. elim (Bool-cases (low == y)) [
    | inl q ↦
        let same : low ≡ y = ground arith in
        let new_p : p ≡ high = set_there parents low y high p same e in rw new_p b
    | inr q ↦
        let apart : low ≢ y = ground arith in
        f.inside y p (sym (get_elem?-set_ne parents low y high apart) ∙ e)
  ];
  rises = λ y p e ne'.
      let at_y = raised-at (rh == rl) ranks high rh y eh in
      let at_p = raised-at (rh == rl) ranks high rh p eh in
      elim (Bool-cases (low == y)) [
        | inl q ↦
            let same : low ≡ y = ground arith in
            let new_p : p ≡ high = set_there parents low y high p same e in
            let ry : rank_at ranks y ≡ rl = rw (← same) (rank_at-some ranks low rl el) in
            let rp : rank_at ranks p ≡ rh = rw new_p (rank_at-some ranks high rh eh) in
            let hy : (high == y) ≡ false = ground arith in
            let hp : (high == p) ≡ true = ground arith in ground arith
        | inr q ↦
            let apart : low ≢ y = ground arith in
            let old : get_elem? parents y ≡ some p =
              sym (get_elem?-set_ne parents low y high apart) ∙ e in
            let rise = f.rises y p old ne' in
            let hy_ne : high ≢ y = λ r. ne' (self_parent parents high y p r h old) in
            let hy : (high == y) ≡ false = ground arith in
            let top : high ≡ p → rank_at ranks p ≡ rh =
              λ r. subst (λ w. rank_at ranks w ≡ rh) r (rank_at-some ranks high rh eh) in
            elim (Bool-cases (high == p)) [
              | inl hp ↦ let at_top = top (ground arith) in ground arith
              | inr hp ↦ ground arith
            ]
      ];
}

pub record Hung (n high low : ℕ) (uf : UnionFind) (o : Option UnionFind) : Type 0 where
  pub after : UnionFind
  pub runs : o ≡ some after
  pub forest : IsForest n after.parents after.ranks
  pub sizes_length : length after.sizes ≡ n
  pub roots :
      (a t : ℕ) → RootOf uf.parents a t → RootOf after.parents a (if t == low then high else t)

pub hang-Hung :
    (n high low : ℕ) (uf : UnionFind)
    → IsForest n uf.parents uf.ranks
    → length uf.sizes ≡ n
    → get_elem? uf.parents high ≡ some high
    → get_elem? uf.parents low ≡ some low
    → high ≢ low
    → rank_at uf.ranks low ≤ rank_at uf.ranks high
    → Hung n high low uf (hang high low uf)
unfolding hang
hang-Hung n high low uf f z h l ne le =
    let high_in = f.inside high high h in
    let low_in = f.inside low low l in
    let (rh, eh) = get_elem?_total uf.ranks high (omega (arith, f.ranks_length)) in
    let (rl, el) = get_elem?_total uf.ranks low (omega (arith, f.ranks_length)) in
    let (sh, fh) = get_elem?_total uf.sizes high (omega arith) in
    let (sl, fl) = get_elem?_total uf.sizes low (omega arith) in
    let ordered : rl ≤ rh =
      omega (arith, rank_at-some uf.ranks high rh eh, rank_at-some uf.ranks low rl el) in
    record {
      after = record {
        parents = set uf.parents low high;
        ranks = if rh == rl then set uf.ranks high (rh + 1) else uf.ranks;
        sizes = set uf.sizes high (sh + sl);
      };
      runs = rw (eh, el, fh, fl) refl;
      forest = hang-IsForest n uf.parents uf.ranks high low rh rl f h l ne eh el ordered high_in;
      sizes_length = omega (arith, length-set uf.sizes high (sh + sl));
      roots = λ a t k. hang-RootOf uf.parents high low a t h l ne k;
    }
