-- ===== src/Projects/Sound.antt =====
-- project.service.ts: an invariant of the tables of projects and tasks.
use time_flow_be.Prelude.{
  ℕ, ◌≡◌, refl, sym, subst, inl, inr, none, some, is_some, List, ◌∷◌, Bool, true, false, ◌&&◌, ◌||◌,
  ◌==◌, if◌then◌else◌, All, All-imp, arith, Bool-cases, Option-cases,
}
use time_flow_be.Results.{Result-cases}
use time_flow_be.Prisma.Keys
use time_flow_be.Prisma.{Prisma, find, update_where, find-update_where}
use time_flow_be.Tasks.{AuthContext, is_null, Task}
use time_flow_be.Projects.{
  Project, Event, CreateProjectInput, UpdateProjectInput, in_order, State, find_project,
  create_checks, new_project, chosen_members, insert, create, updated, write_project, update,
  trashed, task_trashed, trash_tasks, remove, emit, replace_members,
}
use time_flow_be.Projects.Checks.{rewritten, Updates, update_cases, remove_cases}

-- A request that changes projects; one to create has passed the schema.
pub data Request : Type 0 where
  creates : ℕ → CreateProjectInput → Request
  updates : ℕ → UpdateProjectInput → Request
  removes : ℕ → Request

abbrev pub accepted : CreateProjectInput → Bool
accepted i = in_order i.start_date i.end_date

-- The dates of a project are in order.
abbrev pub Dated : Project → Type 0
Dated p = in_order p.start_date p.end_date ≡ true

-- A task that is not deleted is in no deleted project.
abbrev pub reachable : List Project → Task → Bool
reachable ps t =
    is_some t.deleted_at
    || elim (find (λ p. p.id == t.project_id) ps) [ none ↦ true | some p ↦ is_null p.deleted_at ]

abbrev pub Reachable : List Project → Task → Type 0
Reachable ps t = reachable ps t ≡ true

-- A new project, and a write of one.
Reachable-new :
    (p : Project) (ps : List Project) (t : Task)
    → p.deleted_at ≡ none
    → Reachable ps t
    → Reachable (p ∷ ps) t
Reachable-new p ps t live h = ground (arith, live)

Reachable-kept :
    (id : ℕ) (f : Project → Project) (ps : List Project) (t : Task)
    → ((p : Project) → (f p).id ≡ p.id)
    → ((p : Project) → (f p).deleted_at ≡ p.deleted_at)
    → Reachable ps t
    → Reachable (update_where (λ p. p.id == id) f ps) t
Reachable-kept id f ps t keeps deleted h =
    let seen = find-update_where (λ p. p.id) (λ p. p.id == id) f keeps t.project_id ps in
    elim (Option-cases (find (λ p. p.id == t.project_id) ps)) [
      | inl gone ↦ rw (seen, gone) (ground arith)
      | inr (p, found) ↦ rw (seen, found) (ground (arith, deleted p))
    ]

Reachable-elsewhere :
    (id : ℕ) (f : Project → Project) (ps : List Project) (t : Task)
    → ((p : Project) → (f p).id ≡ p.id)
    → (t.project_id == id && is_null t.deleted_at) ≡ false
    → Reachable ps t
    → Reachable (update_where (λ p. p.id == id) f ps) t
Reachable-elsewhere id f ps t keeps elsewhere h =
    let seen = find-update_where (λ p. p.id) (λ p. p.id == id) f keeps t.project_id ps in
    elim (Option-cases (find (λ p. p.id == t.project_id) ps)) [
      | inl gone ↦ rw (seen, gone) (ground arith)
      | inr (p, found) ↦
          let p_id : p.id ≡ t.project_id = Keys.find-key (λ q. q.id) t.project_id p ps found in
          rw (seen, found)
            (elim (Bool-cases (t.project_id == id)) [
              | inl here ↦ ground (arith, elsewhere)
              | inr away ↦
                  let other : p.id == id ≡ false = rw p_id away in
                  rw other (ground (arith, h, found))
            ])
    ]

module _ (prisma : Prisma) where
  abbrev pub run : ℕ → AuthContext → Request → State prisma → State prisma
  run now actor (creates id i) s = if accepted i then (create prisma id actor i s).1 else s
  run now actor (updates id i) s = (update prisma actor id i s).1
  run now actor (removes id) s = (remove prisma now actor id s).1

  pub record ProjectsAreSound (s : State prisma) : Type 0 where
    pub distinct : Keys.Distinct (λ p. p.id) (prisma.rows s.projects)
    pub dated : All Dated (prisma.rows s.projects)
    pub reached : All (Reachable (prisma.rows s.projects)) (prisma.rows s.tasks)

  emit-Sound :
      (es : List Event) (s : State prisma)
      → ProjectsAreSound s
      → ProjectsAreSound (emit prisma es s)
  emit-Sound es s h = record { distinct = h.distinct; dated = h.dated; reached = h.reached }

  trashed-Reachable :
      (now id : ℕ) (ps : List Project) (t : Task)
      → Reachable ps t
      → Reachable
          (update_where (λ p. p.id == id) (trashed prisma now) ps)
          (if t.project_id == id && is_null t.deleted_at then task_trashed prisma now t else t)
  trashed-Reachable now id ps t h =
      let after = update_where (λ p. p.id == id) (trashed prisma now) ps in
      let of = t.project_id == id && is_null t.deleted_at in
      elim (Bool-cases of) [
        | inl hit ↦
            subst (λ b. Reachable after (if b then task_trashed prisma now t else t)) (sym hit) refl
        | inr miss ↦
            subst (λ b. Reachable after (if b then task_trashed prisma now t else t)) (sym miss)
              (Reachable-elsewhere id (trashed prisma now) ps t (λ p. refl) miss h)
      ]

  rewritten-Sound :
      (actor : AuthContext) (id : ℕ) (i : UpdateProjectInput) (s : State prisma) (p : Project)
      → Updates prisma actor id i s p
      → ProjectsAreSound s
      → ProjectsAreSound (rewritten prisma id i p s)
  unfolding replace_members
  rewritten-Sound actor id i s p u h =
      let rows = prisma.rows-update_many (λ q. q.id == id) (updated prisma i) s.projects in
      let ps = prisma.rows s.projects in
      record {
        distinct = rw rows (
            Keys.Distinct-update_where (λ q. q.id) (λ q. q.id == id) (updated prisma i) (λ q. refl)
              ps h.distinct);
        dated = rw rows (
            Keys.All-update_where (λ q. q.id) Dated id (updated prisma i) p ps h.distinct
              u.seen.found u.dates h.dated);
        reached = rw rows (
            All-imp (prisma.rows s.tasks)
              (λ t r. Reachable-kept id (updated prisma i) ps t (λ q. refl) (λ q. refl) r)
              h.reached);
      }

  inserted :
      (p : Project) (users : List ℕ) (s : State prisma)
      → find_project prisma p.id s ≡ none
      → Dated p
      → p.deleted_at ≡ none
      → ProjectsAreSound s
      → ProjectsAreSound (insert prisma p users s)
  inserted p users s free ordered live h =
      let rows = prisma.rows-create p s.projects in
      let ps = prisma.rows s.projects in
      record {
        distinct = rw rows (free, h.distinct);
        dated = rw rows (ordered, h.dated);
        reached =
            rw rows (All-imp (prisma.rows s.tasks) (λ t r. Reachable-new p ps t live r) h.reached);
      }

  create-Sound :
      (id : ℕ) (actor : AuthContext) (i : CreateProjectInput) (s : State prisma)
      → accepted i ≡ true
      → ProjectsAreSound s
      → ProjectsAreSound (create prisma id actor i s).1
  unfolding create
  create-Sound id actor i s ordered h = elim (Result-cases (create_checks prisma actor i s)) [
    | inl (e, refused) ↦ rw (refused, create) h
    | inr (_, passed) ↦ elim (Option-cases (find_project prisma id s)) [
      | inr (p, taken) ↦ rw (passed, create, taken) h
      | inl free ↦
          let new = new_project prisma id actor i in
          rw (passed, create, free)
            (emit-Sound _ _ (inserted new (chosen_members prisma actor i) s free ordered refl h))
    ]
  ]

  trashed-Sound :
      (now id : ℕ) (p : Project) (s : State prisma)
      → find_project prisma id s ≡ some p
      → ProjectsAreSound s
      → ProjectsAreSound
          (trash_tasks prisma now id (write_project prisma id (trashed prisma now) s))
  trashed-Sound now id p s found h =
      let rows = prisma.rows-update_many (λ q. q.id == id) (trashed prisma now) s.projects in
      let of : Task → Bool = λ t. t.project_id == id && is_null t.deleted_at in
      let tasks = prisma.rows-update_many of (task_trashed prisma now) s.tasks in
      let ps = prisma.rows s.projects in
      let ordered : Dated (trashed prisma now p) =
        Keys.All-find (λ q. q.id) Dated id p ps found h.dated in
      record {
        distinct = rw rows (
            Keys.Distinct-update_where (λ q. q.id) (λ q. q.id == id) (trashed prisma now)
              (λ q. refl) ps h.distinct);
        dated = rw rows (
            Keys.All-update_where (λ q. q.id) Dated id (trashed prisma now) p ps h.distinct found
              ordered h.dated);
        reached =
            rw (rows, tasks)
              (Keys.All-rewritten (Reachable ps)
                (Reachable (update_where (λ q. q.id == id) (trashed prisma now) ps)) of
                (task_trashed prisma now) (λ t r. trashed-Reachable now id ps t r)
                (prisma.rows s.tasks) h.reached);
      }

  remove-Sound :
      (now : ℕ) (actor : AuthContext) (id : ℕ) (s : State prisma)
      → ProjectsAreSound s
      → ProjectsAreSound (remove prisma now actor id s).1
  remove-Sound now actor id s h = elim (remove_cases prisma now actor id s) [
    | inl (e, refused) ↦ subst (λ r. ProjectsAreSound r.1) (sym refused) h
    | inr (p, r) ↦
        subst (λ x. ProjectsAreSound x.1) (sym r.result)
          (emit-Sound _ _ (trashed-Sound now id p s r.seen.found h))
  ]

  -- A signed-in user may ask for any change of projects: ids stay distinct, no project ends before it
  -- starts, and no task that is not deleted is in a deleted project, if all of this held before. A
  -- request to create a project counts once the schema has accepted its dates.
  pub run-ProjectsAreSound :
      (now : ℕ) (actor : AuthContext) (r : Request) (s : State prisma)
      → ProjectsAreSound s
      → ProjectsAreSound (run now actor r s)
  run-ProjectsAreSound now actor (creates id i) s h = elim (Bool-cases (accepted i)) [
    | inl ordered ↦ rw ordered (create-Sound id actor i s ordered h)
    | inr refused ↦ rw refused h
  ]
  run-ProjectsAreSound now actor (updates id i) s h = elim (update_cases prisma actor id i s) [
    | inl (e, refused) ↦ subst (λ r. ProjectsAreSound r.1) (sym refused) h
    | inr (p, u) ↦
        subst (λ r. ProjectsAreSound r.1) (sym u.result)
          (emit-Sound _ _ (rewritten-Sound actor id i s p u h))
  ]
  run-ProjectsAreSound now actor (removes id) s h = remove-Sound now actor id s h
