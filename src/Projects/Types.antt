-- ===== src/Projects/Types.antt =====
-- project.service.ts and project.schemas.ts: the data of projects, and JavaScript's sets of ids.
use time_flow_be.Prelude.{
  ℕ, Option, none, some, is_some, List, [], ◌∷◌, ◌++◌, Bool, true, false, not, ◌||◌, ◌==◌, any,
  if◌then◌else◌, ltb,
}
use time_flow_be.Tasks.{Priority}

pub data ProjectStatus : Type 0 where
  planning active on_hold completed archived : ProjectStatus

abbrev pub status_number : ProjectStatus → ℕ
status_number planning = 0
status_number active = 1
status_number on_hold = 2
status_number completed = 3
status_number archived = 4

pub record Project : Type 0 where
  pub id : ℕ
  pub name : ℕ
  pub description : Option ℕ
  pub status : ProjectStatus
  pub priority : Priority
  pub start_date : ℕ
  pub end_date : Option ℕ
  pub manager_id : ℕ
  pub created_by_id : Option ℕ
  pub deleted_at : Option ℕ

pub record ProjectMember : Type 0 where
  pub project_id : ℕ
  pub user_id : ℕ

-- The field of the request that an error is about.
pub data Field : Type 0 where
  manager_id_path member_ids_path : Field

pub data ProjectError : Type 0 where
  not_found forbidden end_before_start unique_violation : ProjectError
  not_active : Field → ProjectError

-- The activity log with the people that it notifies of joining and of managing, and the mails.
pub data Event : Type 0 where
  invalidated : Event
  project_created : ℕ → List ℕ → ℕ → Event
  project_status_changed project_deleted : ℕ → Event
  project_updated : ℕ → List ℕ → Option ℕ → Event
  invitation_email : ℕ → ℕ → Event

pub record CreateProjectInput : Type 0 where
  pub name : ℕ
  pub description : Option ℕ
  pub status : ProjectStatus
  pub priority : Priority
  pub start_date : ℕ
  pub end_date : Option ℕ
  pub manager_id : ℕ
  pub member_ids : List ℕ

-- `none` is a field that the client has left out; `some none` is null.
pub record UpdateProjectInput : Type 0 where
  pub name : Option ℕ
  pub description : Option (Option ℕ)
  pub status : Option ProjectStatus
  pub priority : Option Priority
  pub start_date : Option ℕ
  pub end_date : Option (Option ℕ)
  pub manager_id : Option ℕ
  pub member_ids : Option (List ℕ)

-- The second of the schema's checks: `!v.endDate || v.endDate >= v.startDate`.
abbrev pub in_order : ℕ → Option ℕ → Bool
in_order start none = true
in_order start (some last) = not (ltb last start)

-- `Object.keys(input)` without `memberIds` and `status`.
abbrev pub has_other_fields : UpdateProjectInput → Bool
has_other_fields i =
    is_some i.name
    || is_some i.description
    || is_some i.priority
    || is_some i.start_date
    || is_some i.end_date
    || is_some i.manager_id

-- A `Set` of ids is the list of its elements, the oldest first.
abbrev pub elem : ℕ → List ℕ → Bool
elem x xs = any (λ y. y == x) xs

abbrev pub add : List ℕ → ℕ → List ℕ
add xs x = if elem x xs then xs else xs ++ (x ∷ [])

abbrev pub add_all : List ℕ → List ℕ → List ℕ
add_all seen [] = seen
add_all seen (x ∷ xs) = add_all (add seen x) xs

abbrev pub to_set : List ℕ → List ℕ
to_set xs = add_all [] xs

abbrev pub is_empty : List ℕ → Bool
is_empty [] = true
is_empty (x ∷ xs) = false
