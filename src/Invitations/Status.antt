-- ===== src/Invitations/Status.antt =====
-- invitation.service.ts: the filter of the list and the status that callers see.
use time_flow_be.Prelude.{ℕ, ◌≡◌, refl, List, [], ◌∷◌, some, filter, arith}
use time_flow_be.Invitations.{
  InvitationStatus, Invitation, pending, accepted, expired, revoked, same_status, effective_status,
  status_where,
}

shown :
    (status : InvitationStatus) (now : ℕ) (row : Invitation)
    → status_where (some status) now row ≡ same_status (effective_status row now) status
shown pending now row = ground arith
shown accepted now row = ground arith
shown expired now row = ground arith
shown revoked now row = ground arith

-- The list of invitations with some status has exactly the rows that are shown with that status, at
-- whatever time.
pub filter-status_where :
    (status : InvitationStatus) (now : ℕ) (rows : List Invitation)
    → filter (status_where (some status) now) rows
      ≡ filter (λ row. same_status (effective_status row now) status) rows
filter-status_where status now [] = refl
filter-status_where status now (row ∷ rows) =
    ground (arith, shown status now row, filter-status_where status now rows)
