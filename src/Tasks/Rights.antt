-- ===== src/Tasks/Rights.antt =====
-- task.service.ts: who may change or remove a task, and that nothing else is touched.
use mathlib.Core.Option
use time_flow_be.Prelude.{
  ℕ, ◌≡◌, ◌≢◌, refl, ap, ◌∙◌, inl, inr, ◌⊎◌, some, opt_eq, true, false, not, ◌&&◌, ◌||◌, ◌==◌,
  if◌then◌else◌, arith, Bool-cases, Option-cases,
}
use time_flow_be.Prisma.Keys
use time_flow_be.Prisma.{Prisma, find, find-update_where}
use time_flow_be.Tasks.{
  Task, Project, AuthContext, TaskError, UpdateTaskInput, ok, threw, only_status, State, find_task,
  is_task_privileged, update_checks, updated, write_task, update, trashed, remove,
}
use time_flow_be.Tasks.Checks.{Result-cases, Visible, find_scoped_cases, update_checks-ok}

module _ (prisma : Prisma) where
  -- A change of the row with this id, and of no other.
  pub record Changed (id : ℕ) (t t' : Task) (s s' : State prisma) : Type 0 where
    pub before : find_task prisma id s ≡ some t
    pub after : find_task prisma id s' ≡ some t'
    pub others : (k : ℕ) → k ≢ id → find_task prisma k s' ≡ find_task prisma k s

  write_task-find :
      (id k : ℕ) (f : Task → Task) (s : State prisma)
      → ((r : Task) → (f r).id ≡ r.id)
      → find_task prisma k (write_task prisma id f s)
        ≡ Option.map (λ r. if r.id == id then f r else r) (find_task prisma k s)
  write_task-find id k f s keeps =
      ap (find (λ r. r.id == k)) (prisma.rows-update_many (λ r. r.id == id) f s.tasks)
      ∙ find-update_where (λ r. r.id) (λ r. r.id == id) f keeps k (prisma.rows s.tasks)

  write_task-Changed :
      (id : ℕ) (f : Task → Task) (t : Task) (s : State prisma)
      → ((r : Task) → (f r).id ≡ r.id)
      → find_task prisma id s ≡ some t
      → Changed id t (f t) s (write_task prisma id f s)
  write_task-Changed id f t s keeps found =
      let t_id = Keys.find-key (λ r. r.id) id t (prisma.rows s.tasks) found in
      let hit : (t.id == id) ≡ true = ground arith in
      record {
        before = found;
        after = write_task-find id id f s keeps ∙ rw (found, hit) refl;
        others = λ k apart.
            write_task-find id k f s keeps ∙ elim (Option-cases (find_task prisma k s)) [
              | inl gone ↦ rw gone refl
              | inr (r, there) ↦
                  let r_id = Keys.find-key (λ x. x.id) k r (prisma.rows s.tasks) there in
                  let miss : (r.id == id) ≡ false = ground arith in rw (there, miss) refl
            ];
      }

  -- An update is refused, and then changes nothing, or the actor can see the task and manages its project,
  -- sees all tasks, or is its assignee and changes its status only; then the task is changed as asked for,
  -- and no other.
  pub update_cases :
      (now : ℕ) (actor : AuthContext) (id : ℕ) (i : UpdateTaskInput) (s : State prisma)
      → ((e : TaskError) × (update prisma now actor id i s ≡ (threw e, s)))
        ⊎ ((t : Task) × (p : Project) × ((update prisma now actor id i s).0
              ≡ ok (updated prisma now i t t))
            × Visible prisma actor id s t p
            × (is_task_privileged prisma actor p
                  || (opt_eq t.assignee_id (some actor.id) && only_status i)
                ≡ true)
            × Changed id t (updated prisma now i t t) s (update prisma now actor id i s).1)
  unfolding update
  update_cases now actor id i s = elim (find_scoped_cases prisma actor id s) [
    | inl (e, refused) ↦ inl (e, rw (refused, update) refl)
    | inr (t, p, seen, v) ↦ elim (Result-cases (update_checks prisma actor i t p s)) [
      | inl (e, refused) ↦ inl (e, rw (seen, update, refused) refl)
      | inr (_, passed) ↦
          let a = update_checks-ok prisma actor i t p s passed in
          let c = write_task-Changed id (updated prisma now i t) t s (λ r. refl) v.found in
          inr (
            t,
            p,
            rw (seen, update, passed) refl,
            v,
            a.rights,
            rw (seen, update, passed)
                (record { before = c.before; after = c.after; others = c.others }),
          )
    ]
  ]

  -- A removal is refused, and then changes nothing, or the actor can see the task and manages its project,
  -- sees all tasks, or is its author; then the task is marked as deleted, and no other is touched.
  pub remove_cases :
      (now : ℕ) (actor : AuthContext) (id : ℕ) (s : State prisma)
      → ((e : TaskError) × (remove prisma now actor id s ≡ (threw e, s)))
        ⊎ ((t : Task) × (p : Project) × ((remove prisma now actor id s).0 ≡ ok tt)
            × Visible prisma actor id s t p
            × (is_task_privileged prisma actor p || opt_eq t.created_by_id (some actor.id) ≡ true)
            × Changed id t (trashed prisma now t) s (remove prisma now actor id s).1)
  unfolding remove
  remove_cases now actor id s = elim (find_scoped_cases prisma actor id s) [
    | inl (e, refused) ↦ inl (e, rw (refused, remove) refl)
    | inr (t, p, seen, v) ↦
        let may = is_task_privileged prisma actor p || opt_eq t.created_by_id (some actor.id) in
        let c = write_task-Changed id (trashed prisma now) t s (λ r. refl) v.found in
        elim (Bool-cases (
          not (is_task_privileged prisma actor p)
          && not (opt_eq t.created_by_id (some actor.id)))) [
            | inl lacks ↦ inl (TaskError.forbidden, rw (seen, remove, lacks) refl)
            | inr has ↦
                let rights : may ≡ true = ground arith in
                inr (
                  t,
                  p,
                  rw (seen, remove, has) refl,
                  v,
                  rights,
                  rw (seen, remove, has)
                      (record { before = c.before; after = c.after; others = c.others }),
                )
          ]
  ]
