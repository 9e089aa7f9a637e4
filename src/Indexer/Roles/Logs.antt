-- ===== src/Indexer/Roles/Logs.antt =====
-- The logs of accessControlProcessor.ts, applied and reconciled.
use relay_settlement.Common.{
  ℕ, ◌≡◌, ◌≢◌, ◌⊎◌, inl, inr, refl, ap, sym, ◌∙◌, List, [], ◌∷◌, Bool, true, false, ◌&&◌, ◌||◌,
  Option, none, some, arith, Bool-cases, Option-cases, equal_bytes, equal_bytes_iff, if◌then◌else◌,
  ◌==◌,
}
use relay_settlement.Host.{Text}
use relay_settlement.Indexer.Roles.{
  EventType, role_granted, role_revoked, role_admin_changed, AccessControlEvent, Log, Tables,
  is_member, apply_typed, apply_role_event, has_role_event, insert_role_event,
  parse_access_control_log, with_text, upsert_role_member, delete_role_member, upsert_role_admin,
  process_single_log, reconcile_member, reconcile_account, reconcile_role_state_from_chain,
}
use relay_settlement.Indexer.Roles.Members.{
  same_three, is_member-upsert, is_member-delete, says, decided, is_member-apply_role_event,
}

some_of : {A : Type 0} {x y : A} → some x ≡ some y → x ≡ y
some_of h = cc

module _ (low : Text → Text) (c : Text) where
  with_text_events :
      (a : Option Text) (f : Text → Tables) (db : Tables)
      → ((t : Text) → (f t).events ≡ db.events)
      → (with_text low a f db).events ≡ db.events
  with_text_events none f db h = refl
  with_text_events (some []) f db h = refl
  with_text_events (some (ch ∷ cs)) f db h = h (ch ∷ cs)

  upsert_events :
      (role a : Text) (db : Tables) → (upsert_role_member low c role a db).events ≡ db.events
  unfolding upsert_role_member
  upsert_events role a db = elim (Bool-cases (is_member (low c) role (low a) db.members)) [
    | inl e ↦ rw e refl
    | inr e ↦ rw e refl
  ]

  events-apply_typed :
      (t : EventType) (e : AccessControlEvent) (db : Tables)
      → (apply_typed low t c e db).events ≡ db.events
  unfolding apply_typed delete_role_member upsert_role_admin
  events-apply_typed role_granted e db =
      with_text_events e.account _ db (λ t. upsert_events e.role t db)
  events-apply_typed role_revoked e db = with_text_events e.account _ db (λ t. refl)
  events-apply_typed role_admin_changed e db = with_text_events e.new_admin_role _ db (λ t. refl)

  events-apply_role_event :
      (e : AccessControlEvent) (db : Tables) → (apply_role_event low c e db).events ≡ db.events
  unfolding apply_role_event
  events-apply_role_event e db = events-apply_typed e.event_type e db

  -- The log is in the table of events, or does not decode.
  abbrev pub Known : Log → Tables → Type 0
  Known log db =
      (parse_access_control_log log ≡ none)
      ⊎ (has_role_event (low c) log.transaction_hash log.index db.events ≡ true)

  process_same :
      (log : Log) (ts : ℕ) (db : Tables) → Known log db → process_single_log low c log ts db ≡ db
  unfolding process_single_log insert_role_event
  process_same log ts db (inl e) = rw (e, process_single_log) refl
  process_same log ts db (inr h) = elim (Option-cases (parse_access_control_log log)) [
    | inl e ↦ rw (e, process_single_log) refl
    | inr (event, e) ↦ rw (e, process_single_log) (rw (h, insert_role_event) refl)
  ]

  -- What a log does that is not known.
  process_new :
      (log : Log) (ts : ℕ) (db : Tables) (e : AccessControlEvent)
      → parse_access_control_log log ≡ some e
      → has_role_event (low c) log.transaction_hash log.index db.events ≡ false
      → process_single_log low c log ts db
        ≡ apply_role_event low c e (insert_role_event low c log ts e db).1
  unfolding process_single_log insert_role_event
  process_new log ts db e p h = rw (p, process_single_log) (rw (h, insert_role_event) refl)

  -- A row that is in the table stays there, and the row of a new log is added.
  has-insert_role_event :
      (tx : Text) (i : ℕ) (log : Log) (ts : ℕ) (e : AccessControlEvent) (db : Tables)
      → has_role_event (low c) tx i (insert_role_event low c log ts e db).1.events ≡ (
          has_role_event (low c) tx i db.events
          || (equal_bytes tx log.transaction_hash && (i == log.index)))
  unfolding insert_role_event has_role_event
  has-insert_role_event tx i log ts e db =
      let same : equal_bytes (low c) (low c) ≡ true = (equal_bytes_iff (low c) (low c)).1 refl in
      elim (Bool-cases (has_role_event (low c) log.transaction_hash log.index db.events)) [
        | inl h ↦ elim (Bool-cases (equal_bytes tx log.transaction_hash && (i == log.index))) [
          | inl k ↦
              let tx_same : tx ≡ log.transaction_hash =
                (equal_bytes_iff tx log.transaction_hash).0 (ground arith) in
              let i_same : i ≡ log.index = ground arith in
              ground (
                arith,
                h,
                ap (λ t. has_role_event (low c) t i db.events) tx_same,
                ap (λ n. has_role_event (low c) log.transaction_hash n db.events) i_same,
              )
          | inr k ↦ ground (arith, h, k)
        ]
        | inr h ↦ ground (arith, h, same)
      ]

  -- A log is known once it was processed, and stays known.
  process-Known :
      (log : Log) (ts : ℕ) (db : Tables) → Known log (process_single_log low c log ts db)
  process-Known log ts db = elim (Option-cases (parse_access_control_log log)) [
    | inl p ↦ inl p
    | inr (e, p) ↦
        elim (Bool-cases (has_role_event (low c) log.transaction_hash log.index db.events)) [
          | inl h ↦ inr (
              ap (λ d. has_role_event (low c) log.transaction_hash log.index d.events)
                (process_same log ts db (inr h))
              ∙ h)
          | inr h ↦ inr (
              ap (λ d. has_role_event (low c) log.transaction_hash log.index d.events)
                (process_new log ts db e p h)
              ∙ ap (has_role_event (low c) log.transaction_hash log.index)
                  (events-apply_role_event e (insert_role_event low c log ts e db).1)
              ∙ has-insert_role_event log.transaction_hash log.index log ts e db
              ∙ ground (arith, equal_bytes_iff log.transaction_hash log.transaction_hash))
        ]
  ]

  Known-process :
      (log : Log) (later : Log) (ts : ℕ) (db : Tables)
      → Known log db
      → Known log (process_single_log low c later ts db)
  Known-process log later ts db (inl p) = inl p
  Known-process log later ts db (inr k) = elim (Option-cases (parse_access_control_log later)) [
    | inl p ↦ inr (
        ap (λ d. has_role_event (low c) log.transaction_hash log.index d.events)
          (process_same later ts db (inl p))
        ∙ k)
    | inr (e, p) ↦
        elim (Bool-cases (has_role_event (low c) later.transaction_hash later.index db.events)) [
          | inl h ↦ inr (
              ap (λ d. has_role_event (low c) log.transaction_hash log.index d.events)
                (process_same later ts db (inr h))
              ∙ k)
          | inr h ↦ inr (
              ap (λ d. has_role_event (low c) log.transaction_hash log.index d.events)
                (process_new later ts db e p h)
              ∙ ap (has_role_event (low c) log.transaction_hash log.index)
                  (events-apply_role_event e (insert_role_event low c later ts e db).1)
              ∙ has-insert_role_event log.transaction_hash log.index later ts e db
              ∙ ground (arith, k))
        ]
  ]

  -- Logs in the order in which they are processed, each with its time.
  abbrev pub process_all : List (Log × ℕ) → Tables → Tables
  process_all [] db = db
  process_all ((log, ts) ∷ logs) db = process_all logs (process_single_log low c log ts db)

  Known-process_all :
      (log : Log) (logs : List (Log × ℕ)) (db : Tables)
      → Known log db
      → Known log (process_all logs db)
  Known-process_all log [] db k = k
  Known-process_all log ((l, ts) ∷ logs) db k =
      Known-process_all log logs (process_single_log low c l ts db) (Known-process log l ts db k)

  -- A log that was processed is not applied again: to process it once more, after any other logs,
  -- leaves the tables as they are.
  pub process_single_log_again :
      (log : Log) (ts ts' : ℕ) (logs : List (Log × ℕ)) (db : Tables)
      → process_single_log low c log ts' (process_all logs (process_single_log low c log ts db))
        ≡ process_all logs (process_single_log low c log ts db)
  process_single_log_again log ts ts' logs db =
      process_same log ts' _ (Known-process_all log logs _ (process-Known log ts db))

  insert_members :
      (log : Log) (ts : ℕ) (e : AccessControlEvent) (db : Tables)
      → (insert_role_event low c log ts e db).1.members ≡ db.members
  unfolding insert_role_event
  insert_members log ts e db =
      elim (Bool-cases (has_role_event (low c) log.transaction_hash log.index db.events)) [
        | inl h ↦ rw (h, insert_role_event) refl
        | inr h ↦ rw (h, insert_role_event) refl
      ]

  -- A new log of the contract decides the membership that it names, and no other: an account has a
  -- role afterwards when the log grants it, has it not when the log revokes it, and else as before.
  pub is_member-process_single_log :
      (log : Log) (ts : ℕ) (db : Tables) (e : AccessControlEvent) (x y z : Text)
      → parse_access_control_log log ≡ some e
      → has_role_event (low c) log.transaction_hash log.index db.events ≡ false
      → is_member x y z (process_single_log low c log ts db).members
        ≡ decided (says low c e x y z) (is_member x y z db.members)
  is_member-process_single_log log ts db e x y z p h =
      ap (λ d. is_member x y z d.members) (process_new log ts db e p h)
      ∙ is_member-apply_role_event low c x y z e (insert_role_event low c log ts e db).1
      ∙ ap (λ ms. decided (says low c e x y z) (is_member x y z ms)) (insert_members log ts e db)

  -- Where the contract answers `b`, the account has the role or not as `b` says, and every other
  -- membership is as before.
  reconcile_member_lem :
      (answer : Option Bool) (role a : Text) (db db' : Tables) (x y z : Text)
      → reconcile_member low answer c role a db ≡ some db'
      → (b : Bool) × (answer ≡ some b)
        × (is_member x y z db'.members
            ≡ (if same_three x y z (low c) role (low a) then b else is_member x y z db.members))
  unfolding reconcile_member
  reconcile_member_lem none role a db db' x y z h = absurd (cc)
  reconcile_member_lem (some true) role a db db' x y z h = (
    true,
    refl,
    ap (λ d. is_member x y z d.members) (some_of (sym h)) ∙ is_member-upsert low c role a x y z db,
  )
  reconcile_member_lem (some false) role a db db' x y z h = (
    false,
    refl,
    ap (λ d. is_member x y z d.members) (some_of (sym h)) ∙ is_member-delete low c role a x y z db,
  )

by_type :
    {A : Type 0} (t : EventType)
    → t ≢ role_admin_changed
    → (x y : A) → (elim t [ role_admin_changed ↦ x | _ ↦ y ]) ≡ y
by_type role_granted h x y = refl
by_type role_revoked h x y = refl
by_type role_admin_changed h x y = absurd (h refl)

module _ (low : Text → Text) (get_role_admin : Text → Option Text)
    (has_role : Text → Text → Option Bool) (c : Text) where
  -- When a reconciliation of an event on an account succeeds, the contract has answered whether the
  -- account has the role, the tables say what it answered, and every other membership is as before.
  pub reconcile-is_member :
      (e : AccessControlEvent) (ch : ℕ) (cs : Text) (db db' : Tables) (x y z : Text)
      → e.event_type ≢ role_admin_changed
      → e.account ≡ some (ch ∷ cs)
      → reconcile_role_state_from_chain low get_role_admin has_role c e db ≡ some db'
      → (b : Bool) × (has_role e.role (ch ∷ cs) ≡ some b)
        × (is_member x y z db'.members ≡ (
            if same_three x y z (low c) e.role (low (ch ∷ cs))
            then b
            else is_member x y z db.members))
  unfolding reconcile_role_state_from_chain
  reconcile-is_member e ch cs db db' x y z other named h =
      reconcile_member_lem low c (has_role e.role (ch ∷ cs)) e.role (ch ∷ cs) db db' x y z (
        ap (λ a. reconcile_account low (has_role e.role) c e.role a db) (sym named)
        ∙ sym (by_type e.event_type other _ _)
        ∙ h)
