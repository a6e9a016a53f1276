-- ===== src/Invitations/Types.antt =====
-- invitation.service.ts: the data of invitations.
use time_flow_be.Prelude.{ℕ, ◌-◌, Option, List, [], ◌∷◌, ◌++◌, map, Bool, ◌||◌, ◌==◌, if◌then◌else◌}
use time_flow_be.Prisma.{Prisma}
use time_flow_be.Accounts.{Text}

pub data InvitationStatus : Type 0 where
  pending accepted expired revoked : InvitationStatus

abbrev pub status_number : InvitationStatus → ℕ
status_number pending = 0
status_number accepted = 1
status_number expired = 2
status_number revoked = 3

abbrev pub same_status : InvitationStatus → InvitationStatus → Bool
same_status a b = status_number a == status_number b

pub record Invitation : Type 0 where
  pub id : ℕ
  pub email : Text
  pub role_id : ℕ
  pub invited_by_id : Option ℕ
  pub token_hash : ℕ
  pub status : InvitationStatus
  pub expires_at : ℕ
  pub accepted_user_id : Option ℕ
  pub accepted_at : Option ℕ
  pub revoked_at : Option ℕ

pub record Role : Type 0 where
  pub id : ℕ
  pub name : ℕ

pub data InvitationError : Type 0 where
  role_not_found forbidden user_email_exists invitation_in_progress : InvitationError
  invitation_not_found invitation_not_pending invitation_link_invalid : InvitationError

pub data Event : Type 0 where
  invited : ℕ → ℕ → Bool → Event
  invitation_expired invitation_revoked : ℕ → Event
  invitation_accepted : ℕ → ℕ → Option ℕ → Event
  welcome_email : ℕ → Event
  invalidated : Event

pub record AcceptInput : Type 0 where
  pub token : ℕ
  pub first_name : Option Text
  pub last_name : Option Text
  pub password : ℕ

-- The hashes, the upper case of a code unit, and `INVITATION_EXPIRY_HOURS`.
pub record Env : Type 1 where
  pub prisma : Prisma
  pub sha256 : ℕ → ℕ
  pub hash_password : ℕ → ℕ
  pub to_upper : ℕ → ℕ
  pub invitation_expiry_hours : ℕ

-- `email.split('@')[0]`
abbrev pub local_part : Text → Text
local_part [] = []
local_part (c ∷ cs) = if c == 64 then [] else c ∷ local_part cs

-- A full stop, an underscore, a dash or a plus sign.
abbrev pub is_separator : ℕ → Bool
is_separator c = c == 46 || c == 95 || c == 45 || c == 43

abbrev pub keep_word : Text → List Text → List Text
keep_word [] ws = ws
keep_word (c ∷ cs) ws = (c ∷ cs) ∷ ws

-- The word at the front, and the words after it that are not empty.
abbrev pub split_words : Text → Text × List Text
split_words [] = ([], [])
split_words (c ∷ cs) =
    let (w, ws) = split_words cs in if is_separator c then ([], keep_word w ws) else (c ∷ w, ws)

abbrev pub words : Text → List Text
words t = let (w, ws) = split_words t in keep_word w ws

abbrev pub join_words : List Text → Text
join_words [] = []
join_words (w ∷ []) = w
join_words (w ∷ v ∷ vs) = w ++ (32 ∷ join_words (v ∷ vs))

abbrev pub take : ℕ → Text → Text
take n [] = []
take n (c ∷ cs) = if n == 0 then [] else c ∷ take (n - 1) cs

abbrev pub or_text : Text → Text → Text
or_text [] fallback = fallback
or_text (c ∷ cs) fallback = c ∷ cs

module _ (env : Env) where
  abbrev pub capitalised : Text → Text
  capitalised [] = []
  capitalised (c ∷ cs) = env.to_upper c ∷ cs

  -- The first and the last name, "New" and "User" where there is none.
  unfoldable pub name_from_email : Text → Text × Text
  name_from_email email = elim (map capitalised (words (local_part email))) [
    | [] ↦ (78 ∷ 101 ∷ 119 ∷ [], 85 ∷ 115 ∷ 101 ∷ 114 ∷ [])
    | first ∷ rest ↦
        (take 80 first, take 80 (or_text (join_words rest) (85 ∷ 115 ∷ 101 ∷ 114 ∷ [])))
  ]
