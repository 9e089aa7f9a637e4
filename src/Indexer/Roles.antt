-- ===== src/Indexer/Roles.antt =====
-- packages/indexer/src/services/accessControlProcessor.ts, and `processSingleLog` of
-- services/transferProcessor.ts, which runs it for each log. A statement does not fail, so a
-- transaction is not run again.
pub mod Members
pub mod Logs
mod Tests
use relay_settlement.Common.{
  ℕ, zero, suc, ◌+◌, List, [], ◌∷◌, ◌++◌, Bool, true, false, not, ◌&&◌, ◌||◌, Option, none, some,
  Result, ok, err, ◌==◌, equal_bytes, if◌then◌else◌,
}
use relay_settlement.Host.{Text}

pub data EventType : Type 0 where
  role_granted role_revoked role_admin_changed : EventType

pub record AccessControlEvent : Type 0 where
  pub event_type : EventType
  pub role : Text
  pub account : Option Text
  pub sender : Option Text
  pub previous_admin_role : Option Text
  pub new_admin_role : Option Text

-- A log that `parseLog` of ethers decodes, by its name; `parse_log` stands for that call.
pub data ParsedLog : Type 0 where
  granted revoked : Text → Text → Text → ParsedLog
  admin_changed : Text → Text → Text → ParsedLog
  another : ParsedLog

pub record Member : Type 0 where
  pub contract_address : Text
  pub role : Text
  pub account : Text

pub record Admin : Type 0 where
  pub contract_address : Text
  pub role : Text
  pub admin_role : Text

pub record RoleEvent : Type 0 where
  pub contract_address : Text
  pub block_number : ℕ
  pub tx_hash : Text
  pub log_index : ℕ
  pub event : AccessControlEvent
  pub timestamp : ℕ

pub record Tables : Type 0 where
  pub members : List Member
  pub admins : List Admin
  pub events : List RoleEvent

-- A log of the chain, with what `parseLog` makes of it (`none` where it throws or returns null).
pub record Log : Type 0 where
  pub block_number : ℕ
  pub transaction_hash : Text
  pub index : ℕ
  pub decoded : Option ParsedLog

unfoldable pub parse_access_control_log : Log → Option AccessControlEvent
parse_access_control_log log = elim log.decoded [
  | none ↦ none
  | some p ↦ elim p [
    | granted role account sender ↦ some (record {
      event_type = role_granted;
      role = role;
      account = some account;
      sender = some sender;
      previous_admin_role = none;
      new_admin_role = none;
    })
    | revoked role account sender ↦ some (record {
      event_type = role_revoked;
      role = role;
      account = some account;
      sender = some sender;
      previous_admin_role = none;
      new_admin_role = none;
    })
    | admin_changed role previous new ↦ some (record {
      event_type = role_admin_changed;
      role = role;
      account = none;
      sender = none;
      previous_admin_role = some previous;
      new_admin_role = some new;
    })
    | another ↦ none
  ]
]

abbrev pub same_member : Text → Text → Text → Member → Bool
same_member contract role account m =
    equal_bytes contract m.contract_address
    && (equal_bytes role m.role && equal_bytes account m.account)

unfoldable pub is_member : Text → Text → Text → List Member → Bool
is_member contract role account [] = false
is_member contract role account (m ∷ ms) =
    same_member contract role account m || is_member contract role account ms

-- `none` where the role has no row.
unfoldable pub admin_of : Text → Text → List Admin → Option Text
admin_of contract role [] = none
admin_of contract role (r ∷ rs) =
    let rest = admin_of contract role rs in
    if equal_bytes contract r.contract_address && equal_bytes role r.role
    then some r.admin_role
    else rest

-- `account?.toLowerCase() ?? null`.
abbrev pub lowered : (Text → Text) → Option Text → Option Text
lowered f none = none
lowered f (some t) = some (f t)

unfoldable pub remove_member : Text → Text → Text → List Member → List Member
remove_member contract role account [] = []
remove_member contract role account (m ∷ ms) =
    let rest = remove_member contract role account ms in
    if same_member contract role account m then rest else m ∷ rest

unfoldable pub put_admin : Text → Text → Text → List Admin → List Admin
put_admin contract role admin_role [] =
    record { contract_address = contract; role = role; admin_role = admin_role } ∷ []
put_admin contract role admin_role (r ∷ rs) =
    let rest = put_admin contract role admin_role rs in
    if equal_bytes contract r.contract_address && equal_bytes role r.role
    then record r { admin_role = admin_role } ∷ rs
    else r ∷ rest

unfoldable pub has_role_event : Text → Text → ℕ → List RoleEvent → Bool
has_role_event contract tx_hash log_index [] = false
has_role_event contract tx_hash log_index (e ∷ es) =
    (equal_bytes contract e.contract_address
      && (equal_bytes tx_hash e.tx_hash && (log_index == e.log_index)))
    || has_role_event contract tx_hash log_index es

module _ (to_lower_case : Text → Text) where
  unfoldable pub upsert_role_member : Text → Text → Text → Tables → Tables
  unfolding is_member
  upsert_role_member contract role account db =
      if is_member (to_lower_case contract) role (to_lower_case account) db.members
      then db
      else record db {
        members =
            record {
              contract_address = to_lower_case contract;
              role = role;
              account = to_lower_case account;
            }
            ∷ db.members;
      }

  unfoldable pub delete_role_member : Text → Text → Text → Tables → Tables
  unfolding remove_member
  delete_role_member contract role account db = record db {
    members = remove_member (to_lower_case contract) role (to_lower_case account) db.members;
  }

  unfoldable pub upsert_role_admin : Text → Text → Text → Tables → Tables
  unfolding put_admin
  upsert_role_admin contract role admin_role db = record db {
    admins = put_admin (to_lower_case contract) role admin_role db.admins;
  }

  -- A missing or empty text is false.
  abbrev pub with_text : Option Text → (Text → Tables) → Tables → Tables
  with_text none f db = db
  with_text (some []) f db = db
  with_text (some (c ∷ cs)) f db = f (c ∷ cs)

  -- By the type of the event.
  unfoldable pub apply_typed : EventType → Text → AccessControlEvent → Tables → Tables
  unfolding upsert_role_member delete_role_member upsert_role_admin
  apply_typed role_granted contract event db =
      with_text event.account (λ a. upsert_role_member contract event.role a db) db
  apply_typed role_revoked contract event db =
      with_text event.account (λ a. delete_role_member contract event.role a db) db
  apply_typed role_admin_changed contract event db =
      with_text event.new_admin_role (λ r. upsert_role_admin contract event.role r db) db

  unfoldable pub apply_role_event : Text → AccessControlEvent → Tables → Tables
  unfolding apply_typed
  apply_role_event contract event db = apply_typed event.event_type contract event db

  -- Whether a row was inserted, and the tables.
  unfoldable pub insert_role_event : Text → Log → ℕ → AccessControlEvent → Tables → Bool × Tables
  unfolding has_role_event
  insert_role_event contract log timestamp event db =
      if has_role_event (to_lower_case contract) log.transaction_hash log.index db.events
      then (false, db)
      else (
        true,
        record db {
          events =
              record {
                contract_address = to_lower_case contract;
                block_number = log.block_number;
                tx_hash = log.transaction_hash;
                log_index = log.index;
                event = record event {
                  account = lowered to_lower_case event.account;
                  sender = lowered to_lower_case event.sender;
                };
                timestamp = timestamp;
              }
              ∷ db.events;
        },
      )

  abbrev pub apply_if : Text → AccessControlEvent → Bool × Tables → Tables
  apply_if contract event (true, db) = apply_role_event contract event db
  apply_if contract event (false, db) = db

  unfoldable pub process_single_log : Text → Log → ℕ → Tables → Tables
  unfolding parse_access_control_log insert_role_event apply_role_event
  process_single_log contract log timestamp db = elim (parse_access_control_log log) [
    | none ↦ db
    | some event ↦ apply_if contract event (insert_role_event contract log timestamp event db)
  ]

  -- The calls of the contract at the block that is read: `none` fails.
  unfoldable pub reconcile_admin : Option Text → Text → Text → Tables → Option Tables
  unfolding upsert_role_admin
  reconcile_admin none contract role db = none
  reconcile_admin (some admin) contract role db = some (upsert_role_admin contract role admin db)

  unfoldable pub reconcile_member : Option Bool → Text → Text → Text → Tables → Option Tables
  unfolding upsert_role_member delete_role_member
  reconcile_member none contract role account db = none
  reconcile_member (some true) contract role account db =
      some (upsert_role_member contract role account db)
  reconcile_member (some false) contract role account db =
      some (delete_role_member contract role account db)

  abbrev pub reconcile_account :
      (Text → Option Bool) → Text → Text → Option Text → Tables → Option Tables
  reconcile_account has_role contract role none db = some db
  reconcile_account has_role contract role (some []) db = some db
  reconcile_account has_role contract role (some (c ∷ cs)) db =
      reconcile_member (has_role (c ∷ cs)) contract role (c ∷ cs) db

  unfoldable pub reconcile_role_state_from_chain :
      (Text → Option Text)
      → (Text → Text → Option Bool)
      → Text
      → AccessControlEvent
      → Tables
      → Option Tables
  unfolding reconcile_admin reconcile_member
  reconcile_role_state_from_chain get_role_admin has_role contract event db =
      elim event.event_type [
        | role_admin_changed ↦ reconcile_admin (get_role_admin event.role) contract event.role db
        | _ ↦ reconcile_account (has_role event.role) contract event.role event.account db
      ]
