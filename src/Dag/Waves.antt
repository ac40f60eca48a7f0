-- ===== src/Dag/Waves.antt =====
-- internal/core/dag.go, TopologicalWaves: the filter of one round, and the bookkeeping after it.
use specd.Prelude.{
  ◌≤◌, ◌<◌, String, true, false, List, [], ◌∷◌, ◌≡◌, refl, arith, ◌&&◌, Bool-cases, mem, remove,
  eq_iff, length, inl, inr, if◌then◌else◌, all, &&-parts, mem-remove,
}
use specd.Task.{TaskRow}
use specd.Dag.{deps_of, ids, deps_satisfied, wave_of, remove_all}
use specd.Dag.Search.{Within, Within-nil, Within-cons, mem_self, mem_tail, mem-cons}
use specd.Dag.Acyclic.{not-mem-nil}
use specd.Dag.Index.{IsKeyed}

all-Within : (ds done : List String) → all (λ d. mem d done) ds ≡ true → Within ds done
all-Within [] done h = Within-nil done
all-Within (d ∷ ds) done h =
    let (a, b) = &&-parts (mem d done) (all (λ z. mem z done) ds) h in
    Within-cons d ds done a (all-Within ds done b)

Within-all : (ds done : List String) → Within ds done → all (λ d. mem d done) ds ≡ true
Within-all [] done w = refl
Within-all (d ∷ ds) done w =
    rw (w d (mem_self d ds)) (Within-all ds done (λ z m. w z (mem_tail z d ds m)))

-- What the filter of one round lets through.
abbrev pub IsReady : List TaskRow → (remaining done : List String) → String → Type 0
IsReady ts remaining done x =
    (mem x (ids ts) ≡ true) × (mem x remaining ≡ true) × Within (deps_of ts x) done

pub deps_of_head :
    (t : TaskRow) (ts : List TaskRow) (x : String) → x ≡ t.id → deps_of (t ∷ ts) x ≡ t.depends_on
unfolding deps_of
deps_of_head t ts x e = ground (arith, eq_iff t.id x)

pub deps_of_tail :
    (t : TaskRow) (ts : List TaskRow) (x : String)
    → mem t.id (ids ts) ≡ false
    → mem x (ids ts) ≡ true
    → deps_of (t ∷ ts) x ≡ deps_of ts x
unfolding deps_of
deps_of_tail t ts x n m = ground (arith, eq_iff t.id x)

IsReady-tail :
    (t : TaskRow) (ts : List TaskRow) (remaining done : List String) (x : String)
    → IsKeyed (t ∷ ts)
    → IsReady ts remaining done x
    → IsReady (t ∷ ts) remaining done x
IsReady-tail t ts remaining done x k (known, open_id, deps) =
    (mem_tail x t.id (ids ts) known, open_id, rw (deps_of_tail t ts x k.1 known) deps)

pub wave_of-IsReady :
    (ts : List TaskRow) (remaining done : List String) (x : String)
    → IsKeyed ts
    → mem x (wave_of ts remaining done) ≡ true
    → IsReady ts remaining done x
unfolding wave_of deps_satisfied
wave_of-IsReady [] remaining done x k h = absurd (not-mem-nil x h)
wave_of-IsReady (t ∷ ts) remaining done x k h =
    elim (Bool-cases (mem t.id remaining && all (λ d. mem d done) t.depends_on)) [
      | inl e ↦ elim (mem-cons x t.id (wave_of ts remaining done) (rw e at h)) [
        | inl ex ↦
            let (open_id, met) =
              &&-parts (mem t.id remaining) (all (λ d. mem d done) t.depends_on) e in
            (
              rw ex (mem_self t.id (ids ts)),
              rw ex open_id,
              rw (deps_of_head t ts x ex) (all-Within t.depends_on done met),
            )
        | inr m ↦ IsReady-tail t ts remaining done x k (wave_of-IsReady ts remaining done x k.2 m)
      ]
      | inr e ↦
          IsReady-tail t ts remaining done x k (wave_of-IsReady ts remaining done x k.2 (rw e at h))
    ]

pub wave_of-ready :
    (ts : List TaskRow) (remaining done : List String) (x : String)
    → IsKeyed ts
    → IsReady ts remaining done x
    → mem x (wave_of ts remaining done) ≡ true
unfolding wave_of deps_satisfied
wave_of-ready [] remaining done x k h = h.0
wave_of-ready (t ∷ ts) remaining done x k (known, open_id, deps) =
    elim (mem-cons x t.id (ids ts) known) [
      | inl ex ↦
          let met = Within-all t.depends_on done (rw (deps_of_head t ts x ex) at deps) in
          let open_t : mem t.id remaining ≡ true = rw (← ex) open_id in
          rw (open_t, met, ex) (mem_self t.id (wave_of ts remaining done))
      | inr m ↦
          let rest =
            wave_of-ready ts remaining done x k.2
              (m, open_id, rw (deps_of_tail t ts x k.1 m) at deps) in
          elim (Bool-cases (mem t.id remaining && all (λ d. mem d done) t.depends_on)) [
            | inl e ↦ rw e (mem_tail x t.id (wave_of ts remaining done) rest)
            | inr e ↦ rw e rest
          ]
    ]

pub mem-remove_all :
    (x : String) (wave remaining : List String)
    → mem x (remove_all wave remaining) ≡ (if mem x wave then false else mem x remaining)
unfolding remove_all mem
mem-remove_all x [] remaining = refl
mem-remove_all x (w ∷ wave) remaining =
    ground (arith, mem-remove_all x wave (remove w remaining), mem-remove x w remaining)

length-remove-le : (x : String) (xs : List String) → length (remove x xs) ≤ length xs
unfolding remove
length-remove-le x [] = omega arith
length-remove-le x (y ∷ ys) = ground (arith, length-remove-le x ys)

length-remove-lt :
    (x : String) (xs : List String) → mem x xs ≡ true → length (remove x xs) < length xs
unfolding remove mem
length-remove-lt x [] h = cc
length-remove-lt x (y ∷ ys) h = ground (arith, length-remove-lt x ys, length-remove-le x ys)

length-remove_all-le : (wave xs : List String) → length (remove_all wave xs) ≤ length xs
unfolding remove_all
length-remove_all-le [] xs = omega arith
length-remove_all-le (w ∷ wave) xs =
    omega (arith, length-remove_all-le wave (remove w xs), length-remove-le w xs)

pub length-remove_all-lt :
    (x : String) (wave xs : List String)
    → mem x wave ≡ true
    → mem x xs ≡ true
    → length (remove_all wave xs) < length xs
unfolding remove_all mem
length-remove_all-lt x [] xs h m = cc
length-remove_all-lt x (w ∷ wave) xs h m = ground (
  arith,
  length-remove_all-lt x wave (remove w xs),
  length-remove_all-le wave (remove w xs),
  length-remove-le w xs,
  length-remove-lt w xs,
  mem-remove x w xs,
  eq_iff x w,
)
