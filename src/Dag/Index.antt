-- ===== src/Dag/Index.antt =====
-- internal/core/dag.go, the two loops of NewTaskDAG: the index ByID and the check that every
-- dependency is known.
use specd.Prelude.{
  String, false, List, [], ◌∷◌, ◌≡◌, refl, ◌≢◌, ◌==◌, arith, Bool-cases, mem, eq_iff, length, inl,
  inr, ◌||◌, if◌then◌else◌,
}
use specd.Task.{TaskRow}
use specd.Dag.{ok, deps_of, ids, index_tasks, check_deps, check_tasks, >>=-ok}
use specd.Dag.Search.{Within, Within-nil, Within-cons, mem_self, mem_tail}

-- Every row has an id, and no two rows have the same one.
abbrev pub IsKeyed : List TaskRow → Type 0
IsKeyed [] = Unit
IsKeyed (t ∷ ts) = (t.id ≢ "") × (mem t.id (ids ts) ≡ false) × IsKeyed ts

-- Every dependency names a row.
abbrev pub IsClosed : List TaskRow → List TaskRow → Type 0
IsClosed known [] = Unit
IsClosed known (t ∷ ts) = Within t.depends_on (ids known) × IsClosed known ts

-- The ids of the rows are not in the index yet.
abbrev pub Apart : List TaskRow → List TaskRow → Type 0
Apart [] acc = Unit
Apart (t ∷ ts) acc = (mem t.id (ids acc) ≡ false) × Apart ts acc

Apart-cons :
    (ts acc : List TaskRow) (t : TaskRow)
    → Apart ts (t ∷ acc)
    → Apart ts acc × (mem t.id (ids ts) ≡ false)
unfolding mem
Apart-cons [] acc t h = (tt, refl)
Apart-cons (s ∷ ts) acc t h =
    let rest = Apart-cons ts acc t h.1 in ground (arith, eq_iff s.id t.id, eq_iff t.id s.id)

Apart-cons_of :
    (ts acc : List TaskRow) (t : TaskRow)
    → Apart ts acc
    → mem t.id (ids ts) ≡ false
    → Apart ts (t ∷ acc)
unfolding mem
Apart-cons_of [] acc t h n = tt
Apart-cons_of (s ∷ ts) acc t h n =
    ground (arith, Apart-cons_of ts acc t h.1, eq_iff s.id t.id, eq_iff t.id s.id)

-- One accepted row.
index_tasks-cons :
    (t : TaskRow) (ts acc r : List TaskRow)
    → index_tasks (t ∷ ts) acc ≡ ok r
    → (t.id ≢ "") × (mem t.id (ids acc) ≡ false) × (index_tasks ts (t ∷ acc) ≡ ok r)
unfolding index_tasks
index_tasks-cons t ts acc r h = ground (arith, eq_iff t.id "")

pub index_tasks-IsKeyed :
    (ts acc r : List TaskRow) → index_tasks ts acc ≡ ok r → IsKeyed ts × Apart ts acc
unfolding index_tasks
index_tasks-IsKeyed [] acc r h = (tt, tt)
index_tasks-IsKeyed (t ∷ ts) acc r h =
    let (named, fresh, rest) = index_tasks-cons t ts acc r h in
    let (keyed, apart) = index_tasks-IsKeyed ts (t ∷ acc) r rest in
    let (apart', absent) = Apart-cons ts acc t apart in ((named, absent, keyed), (fresh, apart'))

pub Apart-nil : (ts : List TaskRow) → Apart ts []
unfolding mem
Apart-nil [] = tt
Apart-nil (t ∷ ts) = (refl, Apart-nil ts)

pub index_tasks-total :
    (ts acc : List TaskRow)
    → IsKeyed ts
    → Apart ts acc
    → (r : List TaskRow) × (index_tasks ts acc ≡ ok r)
unfolding index_tasks
index_tasks-total [] acc k a = (acc, refl)
index_tasks-total (t ∷ ts) acc k a =
    let (r, e) = index_tasks-total ts (t ∷ acc) k.2 (Apart-cons_of ts acc t a.1 k.1) in
    (r, ground (arith, eq_iff t.id ""))

pub deps_of_absent : (ts : List TaskRow) (x : String) → mem x (ids ts) ≡ false → deps_of ts x ≡ []
unfolding mem deps_of
deps_of_absent [] x h = refl
deps_of_absent (t ∷ ts) x h = ground (arith, deps_of_absent ts x, eq_iff x t.id, eq_iff t.id x)

-- The index answers like the list of the rows.
pub index_tasks-deps_of :
    (ts acc r : List TaskRow) (x : String)
    → index_tasks ts acc ≡ ok r
    → (deps_of r x ≡ (if mem x (ids ts) then deps_of ts x else deps_of acc x))
      × (mem x (ids r) ≡ (mem x (ids ts) || mem x (ids acc)))
unfolding index_tasks mem deps_of
index_tasks-deps_of [] acc r x h = ground arith
index_tasks-deps_of (t ∷ ts) acc r x h =
    let (named, fresh, rest) = index_tasks-cons t ts acc r h in
    let absent = (Apart-cons ts acc t (index_tasks-IsKeyed ts (t ∷ acc) r rest).1).1 in
    ground (arith, index_tasks-deps_of ts (t ∷ acc) r x rest, eq_iff x t.id, eq_iff t.id x, absent)

check_deps-Within :
    (known : List String) (id : String) (ds : List String)
    → check_deps known id ds ≡ ok tt
    → Within ds known
unfolding check_deps
check_deps-Within known id [] h = Within-nil known
check_deps-Within known id (d ∷ ds) h = elim (Bool-cases (mem d known)) [
  | inl e ↦ Within-cons d ds known e (check_deps-Within known id ds (rw e at h))
  | inr e ↦ cc (rw e at h)
]

check_deps-total :
    (known : List String) (id : String) (ds : List String)
    → Within ds known
    → check_deps known id ds ≡ ok tt
unfolding check_deps
check_deps-total known id [] w = refl
check_deps-total known id (d ∷ ds) w =
    rw (w d (mem_self d ds)) (check_deps-total known id ds (λ z m. w z (mem_tail z d ds m)))

pub check_tasks-IsClosed :
    (known : List TaskRow) (names : List String) (ts : List TaskRow)
    → Within names (ids known)
    → check_tasks names ts ≡ ok tt
    → IsClosed known ts
unfolding check_tasks
check_tasks-IsClosed known names [] w h = tt
check_tasks-IsClosed known names (t ∷ ts) w h =
    let (a, first, rest) =
      >>=-ok (check_deps names t.id t.depends_on) (λ _. check_tasks names ts) h in
    (
      λ z m. w z (check_deps-Within names t.id t.depends_on first z m),
      check_tasks-IsClosed known names ts w rest,
    )

pub check_tasks-total :
    (known : List TaskRow) (names : List String) (ts : List TaskRow)
    → Within (ids known) names
    → IsClosed known ts
    → check_tasks names ts ≡ ok tt
unfolding check_tasks
check_tasks-total known names [] w c = refl
check_tasks-total known names (t ∷ ts) w c =
    rw (check_deps-total names t.id t.depends_on (λ z m. w z (c.0 z m)))
      (check_tasks-total known names ts w c.1)

pub IsClosed-deps :
    (known ts : List TaskRow) (x : String) → IsClosed known ts → Within (deps_of ts x) (ids known)
unfolding deps_of
IsClosed-deps known [] x c = Within-nil (ids known)
IsClosed-deps known (t ∷ ts) x c = elim (Bool-cases (t.id == x)) [
  | inl e ↦ rw e c.0
  | inr e ↦ rw e (IsClosed-deps known ts x c.1)
]

pub length-ids : (ts : List TaskRow) → length (ids ts) ≡ length ts
length-ids [] = refl
length-ids (t ∷ ts) = omega (arith, length-ids ts)
