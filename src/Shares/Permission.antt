-- ===== src/Shares/Permission.antt =====
-- The permission levels of shares and the actions that they allow
-- (src/modules/shares/enums/share-permission.enum.ts).
use securevault_backend.Prelude.{ℕ, Bool, true, ◌≡◌, ◌↔◌, arith, leb}
use securevault_backend.Schema.{SharePermission, ShareAction}

-- `SHARE_PERMISSION_HIERARCHY`
unfoldable pub share_permission_hierarchy : SharePermission → ℕ
share_permission_hierarchy SharePermission.view = 10
share_permission_hierarchy SharePermission.download = 20
share_permission_hierarchy SharePermission.edit = 30
share_permission_hierarchy SharePermission.full_access = 100

-- `ACTION_REQUIRED_PERMISSION`
unfoldable pub action_required_permission : ShareAction → SharePermission
action_required_permission ShareAction.view = SharePermission.view
action_required_permission ShareAction.download = SharePermission.download
action_required_permission ShareAction.edit = SharePermission.edit
action_required_permission ShareAction.delete = SharePermission.full_access
action_required_permission ShareAction.share = SharePermission.full_access

unfoldable pub has_permission_for_action : SharePermission → ShareAction → Bool
unfolding share_permission_hierarchy action_required_permission
has_permission_for_action user_permission required_action =
    let required_permission = action_required_permission required_action in
    leb (share_permission_hierarchy required_permission)
      (share_permission_hierarchy user_permission)

-- The documented levels: each allows what the level below it allows, and one thing more; full
-- access allows everything.
pub data Allows : SharePermission → ShareAction → Type 0 where
  views : Allows SharePermission.view ShareAction.view
  downloads : Allows SharePermission.download ShareAction.download
  edits : Allows SharePermission.edit ShareAction.edit
  everything : (a : ShareAction) → Allows SharePermission.full_access a
  below_download :
      (a : ShareAction) → Allows SharePermission.view a → Allows SharePermission.download a
  below_edit : (a : ShareAction) → Allows SharePermission.download a → Allows SharePermission.edit a

Allows-sound :
    {p : SharePermission} {a : ShareAction} → Allows p a → has_permission_for_action p a ≡ true
unfolding has_permission_for_action
Allows-sound views = ground arith
Allows-sound downloads = ground arith
Allows-sound edits = ground arith
Allows-sound (everything a) = ground arith
Allows-sound (below_download a h) = ground (arith, Allows-sound h)
Allows-sound (below_edit a h) = ground (arith, Allows-sound h)

Allows-complete :
    (p : SharePermission) (a : ShareAction) → has_permission_for_action p a ≡ true → Allows p a
unfolding has_permission_for_action
Allows-complete SharePermission.view ShareAction.view h = views
Allows-complete SharePermission.view _ h = absurd (ground arith)
Allows-complete SharePermission.download ShareAction.view h = below_download _ views
Allows-complete SharePermission.download ShareAction.download h = downloads
Allows-complete SharePermission.download _ h = absurd (ground arith)
Allows-complete SharePermission.edit ShareAction.view h = below_edit _ (below_download _ views)
Allows-complete SharePermission.edit ShareAction.download h = below_edit _ downloads
Allows-complete SharePermission.edit ShareAction.edit h = edits
Allows-complete SharePermission.edit _ h = absurd (ground arith)
Allows-complete SharePermission.full_access a h = everything a

-- The weights decide exactly the documented hierarchy of permissions.
pub has_permission_for_action-Allows_iff :
    (p : SharePermission) (a : ShareAction) → (has_permission_for_action p a ≡ true) ↔ Allows p a
has_permission_for_action-Allows_iff p a = (Allows-complete p a, Allows-sound)
