-- ===== src/Api/Isolation.antt =====
-- What a request of one user of a server can do to the mail of another: the tables.
pub mod Sending
pub mod Mailbox
pub mod Requests
use dmail.Prelude.{◌≡◌, ◌≢◌, ◌⊎◌, inl, inr, Option, [], arith, Option-cases, Bool-cases, All}
use dmail.Prelude.Bytes.{Bytes, eqb-apart}
use dmail.Sql.{find, replace, update}
use dmail.Sql.Keys.{find-replace, find-update}
use dmail.Store
use dmail.Store.{Message, User, Tables, Store, exec, query}
use dmail.Store.Single
use dmail.Store.Multi
use dmail.Store.Multi.{scoped}
use dmail.Store.Integrity.{message_key}
use dmail.Store.Scope.{IsUuid}
use dmail.Store.Mailboxes.{alter, mailboxes}

-- A message but for its status.
abbrev pub blank : Message → Message
blank m = record m { status = [] }

module _ (u i : Bytes) (before : Option Message) where
  -- The users have UUIDs, and the message `i` of user `u` is `before` but for its status.
  pub record Shows (t : Tables) : Type 0 where
    pub uuids : All (λ (x : User). IsUuid x.id) t.users
    pub shown : alter blank (mailboxes t.messages u i) ≡ before

  abbrev pub Sees : Store → Type 0
  Sees s = Shows s.tables

  pub exec-Shows :
      (change : Tables → Tables) (s : Store)
      → (Shows s.tables → Shows (change s.tables))
      → Sees s
      → Sees (exec change s).1
  unfolding exec
  exec-Shows change s keeps h = elim (Bool-cases (s.fault s.statements)) [
    | inl fails ↦ rw fails h
    | inr runs ↦ rw runs (keeps h)
  ]

  pub query-Shows : {A : Type 0} (read : Tables → A) (s : Store) → Sees s → Sees (query read s).1
  unfolding query
  query-Shows read s h = elim (Bool-cases (s.fault s.statements)) [
    | inl fails ↦ rw fails h
    | inr runs ↦ rw runs h
  ]

  -- An UPDATE of another row, or of the status alone.
  pub update-Shows :
      (k : Bytes) (set : Message → Message) (t : Tables)
      → ((m : Message) → (set m).id ≡ m.id)
      → (k ≢ scoped u i)
        ⊎ ((m : Message) → blank (record (set m) { id = i }) ≡ blank (record m { id = i }))
      → Shows t
      → Shows (record t { messages = update message_key k set t.messages })
  update-Shows k set t keeps other h = record {
    uuids = h.uuids;
    shown =
        let updated = find-update message_key k set (scoped u i) t.messages keeps in
        elim (Option-cases (find message_key (scoped u i) t.messages)) [
          | inl absent ↦ ground (arith, updated, h.shown)
          | inr (m, present) ↦ elim other [
            | inl apart ↦ ground (arith, updated, h.shown, eqb-apart k (scoped u i) apart)
            | inr same ↦ ground (arith, updated, h.shown, same m)
          ]
        ];
  }

  -- A row of another user, or under another id.
  pub replace-Shows :
      (row : Message) (t : Tables)
      → row.id ≢ scoped u i
      → Shows t
      → Shows (record t { messages = replace message_key row t.messages })
  replace-Shows row t apart h = record {
    uuids = h.uuids;
    shown =
        rw
          (
            find-replace message_key row (scoped u i) t.messages,
            eqb-apart row.id (scoped u i) apart,
          )
          h.shown;
  }

  pub same-Shows :
      (t t' : Tables) → t'.users ≡ t.users → t'.messages ≡ t.messages → Shows t → Shows t'
  same-Shows t t' eu em h = record { uuids = rw eu h.uuids; shown = rw em h.shown }
