-- ===== src/Tasks/Sound.antt =====
-- task.service.ts: an invariant of the table of tasks, and what other handlers do to it.
use time_flow_be.Prelude.{
  ℕ, ◌≡◌, refl, sym, subst, ap, ap₂, ◌∙◌, inl, inr, ◌⊎◌, Option, none, some, is_some, opt_eq, List,
  Bool, true, false, not, ◌&&◌, ◌==◌, All, arith, Bool-cases, Option-cases,
}
use time_flow_be.Prisma.Keys
use time_flow_be.Prisma.{Prisma, find}
use time_flow_be.Tasks.{
  Task, TaskStatus, completed, Project, AuthContext, UpdateTaskInput, CreateTaskInput, or_before,
  is_null, State, find_task, find_project, same_status, completed_at_for, is_task_privileged,
  new_task, insert, create_checks, create, is_moved, update_checks, updated, write_task, update,
  trashed, remove, Event, emit,
}
use time_flow_be.Tasks.Checks.{
  Result-cases, find_scoped_cases, fits, create_checks-ok, Authorised, update_checks-ok,
}

-- A request that changes tasks.
pub data Request : Type 0 where
  creates : ℕ → CreateTaskInput → Request
  updates : ℕ → UpdateTaskInput → Request
  removes : ℕ → Request

completed_at_lem :
    (now : ℕ) (status : Option TaskStatus) (previous : TaskStatus) (current : Option ℕ)
    → is_some current ≡ same_status previous completed
    → is_some (or_before (completed_at_for now status previous current) current)
      ≡ same_status (or_before status previous) completed
unfolding completed_at_for
completed_at_lem now none previous current h = h
completed_at_lem now (some status) previous none h = ground (arith, h)
completed_at_lem now (some status) previous (some at) h = ground (arith, h)

module _ (prisma : Prisma) where
  abbrev pub run : ℕ → AuthContext → Request → State prisma → State prisma
  run now actor (creates id i) s = (create prisma now id actor i s).1
  run now actor (updates id i) s = (update prisma now actor id i s).1
  run now actor (removes id) s = (remove prisma now actor id s).1

  -- The assignee is somebody of the project.
  abbrev pub placed_at : List Project → ℕ → Option ℕ → Bool
  placed_at ps project assignee = elim (find (λ p. p.id == project) ps) [
    | none ↦ is_null assignee
    | some p ↦ fits prisma p assignee
  ]

  abbrev pub placed : List Project → Task → Bool
  placed ps t = placed_at ps t.project_id t.assignee_id

  pub record IsSound (ps : List Project) (t : Task) : Type 0 where
    pub in_place : placed ps t ≡ true
    pub dated : is_some t.completed_at ≡ same_status t.status completed

  -- Ids are distinct, every assignee belongs to the project, and the tasks with a time of completion are
  -- the completed ones.
  pub record TasksAreSound (s : State prisma) : Type 0 where
    pub distinct : Keys.Distinct (λ t. t.id) (prisma.rows s.tasks)
    pub sound : All (IsSound (prisma.rows s.projects)) (prisma.rows s.tasks)

  fits-placed :
      (t : Task) (p : Project) (s : State prisma)
      → find_project prisma t.project_id s ≡ some p
      → fits prisma p t.assignee_id ≡ true
      → placed (prisma.rows s.projects) t ≡ true
  fits-placed t p s found inside = rw (found, placed_at) inside

  nobody-placed : (ps : List Project) (project : ℕ) → placed_at ps project none ≡ true
  nobody-placed ps project = elim (Option-cases (find (λ p. p.id == project) ps)) [
    | inl gone ↦ rw (gone, placed_at) refl
    | inr (p, found) ↦ rw (found, placed_at) refl
  ]

  same_project :
      (o : Option ℕ) (project : ℕ)
      → elim o [ none ↦ false | some p ↦ not (p == project) ] ≡ false
      → or_before o project ≡ project
  same_project none project h = refl
  same_project (some p) project h = ground arith

  same_assignee :
      (o : Option (Option ℕ)) (assignee : Option ℕ)
      → elim o [
        | none ↦ false
        | some none ↦ false
        | some (some user) ↦ not (opt_eq assignee (some user))
      ]
        ≡ false
      → (or_before o assignee ≡ assignee) ⊎ (or_before o assignee ≡ none)
  same_assignee none assignee h = inl refl
  same_assignee (some none) assignee h = inr refl
  same_assignee (some (some user)) none h = ground arith
  same_assignee (some (some user)) (some a) h = inl (ap some (ground arith))

  stays-placed :
      (now : ℕ) (i : UpdateTaskInput) (t : Task) (ps : List Project)
      → is_moved prisma i t ≡ false
      → placed ps t ≡ true
      → placed ps (updated prisma now i t t) ≡ true
  stays-placed now i t ps stays h =
      let project : or_before i.project_id t.project_id ≡ t.project_id =
        same_project i.project_id t.project_id (ground arith) in
      elim (same_assignee i.assignee_id t.assignee_id (ground arith)) [
        | inl same ↦ ap₂ (placed_at ps) project same ∙ h
        | inr null ↦ ap₂ (placed_at ps) project null ∙ nobody-placed ps t.project_id
      ]

  updated-IsSound :
      (now : ℕ) (actor : AuthContext) (i : UpdateTaskInput) (t : Task) (p : Project)
      (s : State prisma)
      → Authorised prisma actor i t p s
      → IsSound (prisma.rows s.projects) t
      → IsSound (prisma.rows s.projects) (updated prisma now i t t)
  updated-IsSound now actor i t p s a h = record {
    in_place = elim a.place [
      | inl stays ↦ stays-placed now i t (prisma.rows s.projects) stays h.in_place
      | inr (q, found, inside) ↦ fits-placed (updated prisma now i t t) q s found inside
    ];
    dated = completed_at_lem now i.status t.status t.completed_at h.dated;
  }

  write_task-Sound :
      (id : ℕ) (f : Task → Task) (t : Task) (s : State prisma)
      → ((r : Task) → (f r).id ≡ r.id)
      → find_task prisma id s ≡ some t
      → IsSound (prisma.rows s.projects) (f t)
      → TasksAreSound s
      → TasksAreSound (write_task prisma id f s)
  write_task-Sound id f t s keeps found sound h = record {
    distinct = rw (prisma.rows-update_many (λ r. r.id == id) f s.tasks) (
        Keys.Distinct-update_where (λ r. r.id) (λ r. r.id == id) f keeps (prisma.rows s.tasks)
          h.distinct);
    sound = rw (prisma.rows-update_many (λ r. r.id == id) f s.tasks) (
        Keys.All-update_where (λ r. r.id) (IsSound (prisma.rows s.projects)) id f t
          (prisma.rows s.tasks) h.distinct found sound h.sound);
  }

  found-IsSound :
      (id : ℕ) (t : Task) (s : State prisma)
      → find_task prisma id s ≡ some t
      → TasksAreSound s
      → IsSound (prisma.rows s.projects) t
  found-IsSound id t s found h =
      Keys.All-find (λ r. r.id) (IsSound (prisma.rows s.projects)) id t (prisma.rows s.tasks) found
        h.sound

  emit-Sound :
      (es : List Event) (s : State prisma) → TasksAreSound s → TasksAreSound (emit prisma es s)
  emit-Sound es s h = record { distinct = h.distinct; sound = h.sound }

  update-Sound :
      (now : ℕ) (actor : AuthContext) (id : ℕ) (i : UpdateTaskInput) (s : State prisma)
      → TasksAreSound s
      → TasksAreSound (update prisma now actor id i s).1
  unfolding update
  update-Sound now actor id i s h = elim (find_scoped_cases prisma actor id s) [
    | inl (e, refused) ↦ rw (refused, update) h
    | inr (t, p, seen, v) ↦ elim (Result-cases (update_checks prisma actor i t p s)) [
      | inl (e, refused) ↦ rw (seen, update, refused) h
      | inr (_, passed) ↦
          let a = update_checks-ok prisma actor i t p s passed in
          let sound = updated-IsSound now actor i t p s a (found-IsSound id t s v.found h) in
          rw (seen, update, passed)
            (emit-Sound _ _
              (write_task-Sound id (updated prisma now i t) t s (λ r. refl) v.found sound h))
    ]
  ]

  remove-Sound :
      (now : ℕ) (actor : AuthContext) (id : ℕ) (s : State prisma)
      → TasksAreSound s
      → TasksAreSound (remove prisma now actor id s).1
  unfolding remove
  remove-Sound now actor id s h = elim (find_scoped_cases prisma actor id s) [
    | inl (e, refused) ↦ rw (refused, remove) h
    | inr (t, p, seen, v) ↦
        let old = found-IsSound id t s v.found h in
        let sound : IsSound (prisma.rows s.projects) (trashed prisma now t) = record {
          in_place = old.in_place;
          dated = old.dated;
        } in
        let written = write_task-Sound id (trashed prisma now) t s (λ r. refl) v.found sound h in
        elim (Bool-cases (
          not (is_task_privileged prisma actor p)
          && not (opt_eq t.created_by_id (some actor.id)))) [
            | inl lacks ↦ rw (seen, remove, lacks) h
            | inr may ↦ rw (seen, remove, may) (emit-Sound _ _ written)
          ]
  ]

  insert-Sound :
      (t : Task) (s : State prisma)
      → IsSound (prisma.rows s.projects) t
      → TasksAreSound s
      → TasksAreSound (insert prisma t s).1
  insert-Sound t s sound h = elim (Option-cases (find_task prisma t.id s)) [
    | inr (r, taken) ↦ rw taken h
    | inl free ↦ rw free (record {
      distinct = rw (prisma.rows-create t s.tasks) (free, h.distinct);
      sound = rw (prisma.rows-create t s.tasks) (sound, h.sound);
    })
  ]

  create-Sound :
      (now id : ℕ) (actor : AuthContext) (i : CreateTaskInput) (s : State prisma)
      → TasksAreSound s
      → TasksAreSound (create prisma now id actor i s).1
  unfolding create
  create-Sound now id actor i s h = elim (Result-cases (create_checks prisma actor i s)) [
    | inl (e, refused) ↦ rw (refused, create) h
    | inr (p, passed) ↦
        let (found, inside) = create_checks-ok prisma actor i s p passed in
        let t = new_task prisma now id actor i p in
        let p_id : p.id ≡ i.project_id =
          Keys.find-key (λ q. q.id) i.project_id p (prisma.rows s.projects) found in
        let at_p : find_project prisma p.id s ≡ some p =
          subst (λ k. find_project prisma k s ≡ some p) (sym p_id) found in
        let sound : IsSound (prisma.rows s.projects) t = record {
          in_place = fits-placed t p s at_p inside;
          dated = ground arith;
        } in
        rw (passed, create) (insert-Sound t s sound h)
  ]

  -- Whoever creates, changes or removes tasks, and whatever they ask for: ids stay distinct, every
  -- assignee stays the manager or a member of the project of the task, and exactly the completed tasks
  -- have a time of completion, if all of this held before.
  pub run-TasksAreSound :
      (now : ℕ) (actor : AuthContext) (r : Request) (s : State prisma)
      → TasksAreSound s
      → TasksAreSound (run now actor r s)
  run-TasksAreSound now actor (creates id i) s h = create-Sound now id actor i s h
  run-TasksAreSound now actor (updates id i) s h = update-Sound now actor id i s h
  run-TasksAreSound now actor (removes id) s h = remove-Sound now actor id s h
