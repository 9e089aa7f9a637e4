-- ===== src/Indexer/Roles/Tests.antt =====
-- Runs of the role tables, and the theorems at concrete inputs.
use relay_settlement.Common.{◌≡◌, refl, [], ◌∷◌, Bool, false, Option, none, some, if◌then◌else◌}
use relay_settlement.Host.{Text}
use relay_settlement.Indexer.Roles.{
  role_granted, AccessControlEvent, granted, revoked, Log, Tables, parse_access_control_log,
  is_member, has_role_event, process_single_log, reconcile_member, delete_role_member,
  reconcile_role_state_from_chain,
}
use relay_settlement.Indexer.Roles.Members.{says, decided, same_three}
use relay_settlement.Indexer.Roles.Logs.{
  process_all, process_single_log_again, is_member-process_single_log, reconcile-is_member,
}

abbrev low : Text → Text
low t = t

abbrev hub : Text
hub = b'h' ∷ []

abbrev role : Text
role = b'r' ∷ []

abbrev account : Text
account = b'a' ∷ []

abbrev no_tables : Tables
no_tables = record { members = []; admins = []; events = [] }

abbrev grant : Log
grant = record {
  block_number = 4;
  transaction_hash = b't' ∷ [];
  index = 0;
  decoded = some (granted role account hub);
}

abbrev revoke : Log
revoke = record {
  block_number = 5;
  transaction_hash = b'u' ∷ [];
  index = 0;
  decoded = some (revoked role account hub);
}

abbrev grant_event : AccessControlEvent
grant_event = record {
  event_type = role_granted;
  role = role;
  account = some account;
  sender = some hub;
  previous_admin_role = none;
  new_admin_role = none;
}

process_single_log_again_example :
    process_single_log low hub grant 9
      (process_all low hub ((revoke, 8) ∷ []) (process_single_log low hub grant 7 no_tables))
    ≡ process_all low hub ((revoke, 8) ∷ []) (process_single_log low hub grant 7 no_tables)
process_single_log_again_example =
    process_single_log_again low hub grant 7 9 ((revoke, 8) ∷ []) no_tables

grant_parsed : parse_access_control_log grant ≡ some grant_event
unfolding parse_access_control_log
grant_parsed = refl

grant_new : has_role_event (low hub) grant.transaction_hash grant.index no_tables.events ≡ false
unfolding has_role_event
grant_new = refl

is_member-process_single_log_example :
    is_member hub role account (process_single_log low hub grant 7 no_tables).members
    ≡ decided (says low hub grant_event hub role account) (is_member hub role account [])
is_member-process_single_log_example =
    is_member-process_single_log low hub grant 7 no_tables grant_event hub role account grant_parsed
      grant_new

abbrev has_role : Text → Text → Option Bool
has_role r a = some false

abbrev reconciled : Tables
unfolding delete_role_member
reconciled = delete_role_member low hub role account no_tables

reconcile_run :
    reconcile_role_state_from_chain low (λ r. none) has_role hub grant_event no_tables
    ≡ some reconciled
unfolding reconcile_role_state_from_chain reconcile_member
reconcile_run = refl

reconcile-is_member_example :
    (b : Bool) × (has_role role account ≡ some b)
    × (is_member hub role account reconciled.members ≡ (
        if same_three hub role account (low hub) role (low account)
        then b
        else is_member hub role account no_tables.members))
reconcile-is_member_example =
    reconcile-is_member low (λ r. none) has_role hub grant_event b'a' [] no_tables reconciled hub
      role account (λ h. cc) refl reconcile_run
