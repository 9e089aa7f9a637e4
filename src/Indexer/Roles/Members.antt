-- ===== src/Indexer/Roles/Members.antt =====
-- Which accounts have a role after events are applied, and after a reconciliation.
use relay_settlement.Common.{
  ◌≡◌, ◌↔◌, inl, inr, refl, ap, List, [], ◌∷◌, Bool, true, false, ◌&&◌, Option, none, some, arith,
  Bool-cases, equal_bytes, equal_bytes_iff, if◌then◌else◌,
}
use relay_settlement.Host.{Text}
use relay_settlement.Indexer.Roles.{
  EventType, role_granted, role_revoked, role_admin_changed, AccessControlEvent, Member, Tables,
  is_member, upsert_role_member, remove_member, delete_role_member, upsert_role_admin, apply_typed,
  apply_role_event, with_text,
}

-- Three texts that are the same.
abbrev pub same_three : Text → Text → Text → Text → Text → Text → Bool
same_three a b c x y z = equal_bytes a x && (equal_bytes b y && equal_bytes c z)

pub same_three_iff :
    (a b c x y z : Text) → (same_three a b c x y z ≡ true) ↔ ((a ≡ x) × ((b ≡ y) × (c ≡ z)))
same_three_iff a b c x y z =
    ground (arith, equal_bytes_iff a x, equal_bytes_iff b y, equal_bytes_iff c z)

is_member-remove_member :
    (c r a x y z : Text) (ms : List Member)
    → is_member x y z (remove_member c r a ms)
      ≡ (if same_three x y z c r a then false else is_member x y z ms)
unfolding is_member remove_member
is_member-remove_member c r a x y z [] = ground arith
is_member-remove_member c r a x y z (m ∷ ms) = ground (
  arith,
  is_member-remove_member c r a x y z ms,
  same_three_iff c r a m.contract_address m.role m.account,
  same_three_iff x y z m.contract_address m.role m.account,
  same_three_iff x y z c r a,
)

module _ (low : Text → Text) where
  pub is_member-upsert :
      (c r a x y z : Text) (db : Tables)
      → is_member x y z (upsert_role_member low c r a db).members
        ≡ (if same_three x y z (low c) r (low a) then true else is_member x y z db.members)
  unfolding upsert_role_member is_member
  is_member-upsert c r a x y z db = elim (Bool-cases (same_three x y z (low c) r (low a))) [
    | inl e ↦
        let (p, (q, s)) = (same_three_iff x y z (low c) r (low a)).0 e in ground (arith, p, q, s)
    | inr e ↦ ground (arith, e)
  ]

  pub is_member-delete :
      (c r a x y z : Text) (db : Tables)
      → is_member x y z (delete_role_member low c r a db).members
        ≡ (if same_three x y z (low c) r (low a) then false else is_member x y z db.members)
  unfolding delete_role_member
  is_member-delete c r a x y z db = is_member-remove_member (low c) r (low a) x y z db.members

-- What an event of a contract says of an account's role: that it has it, that it has it not, or
-- nothing.
abbrev pub says_of :
    (Text → Text) → Text → Text → Text → Text → Text → Option Text → Bool → Option Bool
says_of low c role x y z none b = none
says_of low c role x y z (some []) b = none
says_of low c role x y z (some (ch ∷ cs)) b =
    if same_three x y z (low c) role (low (ch ∷ cs)) then some b else none

abbrev pub says_typed :
    (Text → Text) → EventType → Text → AccessControlEvent → Text → Text → Text → Option Bool
says_typed low role_granted c e x y z = says_of low c e.role x y z e.account true
says_typed low role_revoked c e x y z = says_of low c e.role x y z e.account false
says_typed low role_admin_changed c e x y z = none

abbrev pub says : (Text → Text) → Text → AccessControlEvent → Text → Text → Text → Option Bool
says low c e x y z = says_typed low e.event_type c e x y z

abbrev pub decided : Option Bool → Bool → Bool
decided none old = old
decided (some b) old = b

module _ (low : Text → Text) (c : Text) (x y z : Text) where
  granted_says :
      (role : Text) (a : Option Text) (db : Tables)
      → is_member x y z (with_text low a (λ t. upsert_role_member low c role t db) db).members
        ≡ decided (says_of low c role x y z a true) (is_member x y z db.members)
  granted_says role none db = refl
  granted_says role (some []) db = refl
  granted_says role (some (ch ∷ cs)) db =
      ground (arith, is_member-upsert low c role (ch ∷ cs) x y z db)

  revoked_says :
      (role : Text) (a : Option Text) (db : Tables)
      → is_member x y z (with_text low a (λ t. delete_role_member low c role t db) db).members
        ≡ decided (says_of low c role x y z a false) (is_member x y z db.members)
  revoked_says role none db = refl
  revoked_says role (some []) db = refl
  revoked_says role (some (ch ∷ cs)) db =
      ground (arith, is_member-delete low c role (ch ∷ cs) x y z db)

  admin_members :
      (role : Text) (a : Option Text) (db : Tables)
      → (with_text low a (λ t. upsert_role_admin low c role t db) db).members ≡ db.members
  unfolding upsert_role_admin
  admin_members role none db = refl
  admin_members role (some []) db = refl
  admin_members role (some (ch ∷ cs)) db = refl

  is_member-apply_typed :
      (t : EventType) (e : AccessControlEvent) (db : Tables)
      → is_member x y z (apply_typed low t c e db).members
        ≡ decided (says_typed low t c e x y z) (is_member x y z db.members)
  unfolding apply_typed
  is_member-apply_typed role_granted e db = granted_says e.role e.account db
  is_member-apply_typed role_revoked e db = revoked_says e.role e.account db
  is_member-apply_typed role_admin_changed e db =
      ap (is_member x y z) (admin_members e.role e.new_admin_role db)

  pub is_member-apply_role_event :
      (e : AccessControlEvent) (db : Tables)
      → is_member x y z (apply_role_event low c e db).members
        ≡ decided (says low c e x y z) (is_member x y z db.members)
  unfolding apply_role_event
  is_member-apply_role_event e db = is_member-apply_typed e.event_type e db
