-- ===== src/Domain/Topology/Order.antt =====
-- Orders on the tasks of a plan: each task after the tasks that it depends on.
use deki_smpc_server.Prelude.{ℕ, ◌≤◌, ◌<◌, ◌≡◌, refl, ◌⊎◌, inl, inr, List, [], ◌∷◌, ◌++◌, arith}
use deki_smpc_server.Domain.Topology.{TaskId, Task}

abbrev pub In : TaskId → List TaskId → Type 0
In d [] = ⊥
In d (x ∷ xs) = (d ≡ x) ⊎ In d xs

abbrev pub AllIn : List TaskId → List TaskId → Type 0
AllIn [] seen = Unit
AllIn (d ∷ ds) seen = In d seen × AllIn ds seen

-- Each task depends only on tasks in `seen` or before it in the list.
abbrev pub IsOrdered : List TaskId → List Task → Type 0
IsOrdered seen [] = Unit
IsOrdered seen (t ∷ ts) = AllIn t.dependencies seen × IsOrdered (t.task_id ∷ seen) ts

-- What has been seen after the tasks of a list.
abbrev pub seen_after : List TaskId → List Task → List TaskId
seen_after seen [] = seen
seen_after seen (t ∷ ts) = seen_after (t.task_id ∷ seen) ts

pub In-seen :
    (d : TaskId) (seen : List TaskId) (ts : List Task) → In d seen → In d (seen_after seen ts)
In-seen d seen [] h = h
In-seen d seen (t ∷ ts) h = In-seen d (t.task_id ∷ seen) ts (inr h)

pub IsOrdered-append :
    (seen : List TaskId) (xs ys : List Task)
    → IsOrdered seen xs
    → IsOrdered (seen_after seen xs) ys
    → IsOrdered seen (xs ++ ys)
IsOrdered-append seen [] ys h k = k
IsOrdered-append seen (x ∷ xs) ys h k = (h.0, IsOrdered-append (x.task_id ∷ seen) xs ys h.1 k)

pub seen_after-append :
    (seen : List TaskId) (xs ys : List Task)
    → seen_after seen (xs ++ ys) ≡ seen_after (seen_after seen xs) ys
seen_after-append seen [] ys = refl
seen_after-append seen (x ∷ xs) ys = seen_after-append (x.task_id ∷ seen) xs ys

-- Membership of a task in a list of tasks.
abbrev pub InTasks : Task → List Task → Type 0
InTasks t [] = ⊥
InTasks t (x ∷ xs) = (t ≡ x) ⊎ InTasks t xs

-- A dependency is in `seen`, or it is a task of the list below a level.
abbrev pub IsMet : List TaskId → List Task → ℕ → TaskId → Type 0
IsMet seen ts l d = In d seen ⊎ ((u : Task) × InTasks u ts × (u.task_id ≡ d) × (u.level < l))

abbrev pub AllMet : List TaskId → List Task → ℕ → List TaskId → Type 0
AllMet seen ts l [] = Unit
AllMet seen ts l (d ∷ ds) = IsMet seen ts l d × AllMet seen ts l ds

abbrev pub AboveAll : Task → List Task → Type 0
AboveAll t [] = Unit
AboveAll t (u ∷ us) = (t.level ≤ u.level) × AboveAll t us

abbrev pub IsSorted : List Task → Type 0
IsSorted [] = Unit
IsSorted (t ∷ ts) = AboveAll t ts × IsSorted ts

above_member : (t u : Task) (ts : List Task) → AboveAll t ts → InTasks u ts → t.level ≤ u.level
above_member t u [] h m = absurd m
above_member t u (x ∷ xs) h (inl e) = ground arith
above_member t u (x ∷ xs) h (inr m) = above_member t u xs h.1 m

first_met :
    (seen : List TaskId) (t : Task) (ts : List Task) (ds : List TaskId)
    → AboveAll t ts
    → AllMet seen (t ∷ ts) t.level ds
    → AllIn ds seen
first_met seen t ts [] h k = tt
first_met seen t ts (d ∷ ds) h k = (one k.0, first_met seen t ts ds h k.1)
  where
    one : IsMet seen (t ∷ ts) t.level d → In d seen
    one (inl s) = s
    one (inr (u, inl e, f, lt)) = absurd (ground arith)
    one (inr (u, inr m, f, lt)) = absurd (omega (arith, above_member t u ts h m))

pub met_later :
    (seen : List TaskId) (t : Task) (ts : List Task) (l : ℕ) (ds : List TaskId)
    → AllMet seen (t ∷ ts) l ds
    → AllMet (t.task_id ∷ seen) ts l ds
met_later seen t ts l [] k = tt
met_later seen t ts l (d ∷ ds) k = (one k.0, met_later seen t ts l ds k.1)
  where
    one : IsMet seen (t ∷ ts) l d → IsMet (t.task_id ∷ seen) ts l d
    one (inl h) = inl (inr h)
    one (inr (u, inl e, f, lt)) = inl (inl (cc))
    one (inr (u, inr m, f, lt)) = inr (u, m, f, lt)

-- A list that is sorted by level is in order where each dependency is met.
pub IsSorted-IsOrdered :
    (seen : List TaskId) (ts : List Task)
    → IsSorted ts
    → ((t : Task) → InTasks t ts → AllMet seen ts t.level t.dependencies)
    → IsOrdered seen ts
IsSorted-IsOrdered seen [] h k = tt
IsSorted-IsOrdered seen (t ∷ ts) h k = (
  first_met seen t ts t.dependencies h.0 (k t (inl refl)),
  IsSorted-IsOrdered (t.task_id ∷ seen) ts h.1
      (λ s m. met_later seen t ts s.level s.dependencies (k s (inr m))),
)
