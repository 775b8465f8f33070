-- ===== src/Store.antt =====
-- pkg/store: the SQLite store (store.go, store_multi.go). The database is a record of tables. Which
-- statements fail (a full disk, a lock that is not released) is given by `fault`, at the count of the
-- statements executed so far; a statement that fails changes no table. SQLite's full-text index is
-- the parameter `fts_match` of the searches.
pub mod Single
pub mod Multi
pub mod Operations
pub mod Integrity
pub mod Messages
pub mod Listing
pub mod Scope
pub mod Tenants
pub mod Mailboxes
use dmail.Prelude.{ℕ, ◌+◌, ◌*◌, Bool, ◌&&◌, not, List, [], leb, if◌then◌else◌, Result, ok, err}
use dmail.Prelude.Bytes.{Bytes, eqb}
use dmail.Clock.{ℤ}

pub record Message : Type 0 where
  pub id : Bytes
  pub folder : Bytes
  pub sender_pubkey : Bytes
  pub recipient_pubkey : Bytes
  pub subject : Bytes
  pub body : Bytes
  pub timestamp : ℕ
  pub is_read : Bool
  pub reply_to_id : Bytes
  pub thread_id : Bytes
  pub status : Bytes

pub record NameEntry : Type 0 where
  pub name : Bytes
  pub pubkey : Bytes
  pub timestamp : ℤ
  pub raw_record : Bytes
  pub is_mine : Bool

pub record Contact : Type 0 where
  pub pubkey : Bytes
  pub petname : Bytes
  pub created_at : ℕ

-- A row of the table `keypair`.
pub record StoredKey : Type 0 where
  pub pubkey : Bytes
  pub encrypted_privkey : Bytes

pub record User : Type 0 where
  pub id : Bytes
  pub username : Bytes
  pub email : Bytes
  pub password_hash : Bytes
  pub password_salt : Bytes
  pub pubkey : Bytes
  pub encrypted_privkey : Bytes
  pub encrypted_key_salt : Bytes
  pub encrypted_key_nonce : Bytes
  pub created_at : ℕ

pub record PendingPacket : Type 0 where
  pub id : ℕ
  pub user_id : Bytes
  pub raw_data : Bytes
  pub sender_pubkey : Bytes
  pub received_at : ℕ
  pub processed : Bool

pub record Tables : Type 0 where
  pub messages : List Message
  pub contacts : List Contact
  pub keypair : List StoredKey
  pub names : List NameEntry
  pub users : List User
  pub pending_packets : List PendingPacket
  -- The next value of the AUTOINCREMENT column `pending_packets.id`.
  pub next_packet_id : ℕ

pub record Store : Type 0 where
  pub tables : Tables
  pub open tables use *
  pub statements : ℕ
  pub fault : ℕ → Bool

-- `constraint` is a violated UNIQUE or PRIMARY KEY constraint.
pub data Error : Type 0 where
  failed constraint : Error

-- `s.db.Exec`
unfoldable pub exec : (Tables → Tables) → Store → Result Error (Unit {0}) × Store
exec change s =
    if s.fault s.statements
    then (err failed, record s { statements = s.statements + 1 })
    else (ok tt, record s { tables = change s.tables; statements = s.statements + 1 })

-- An INSERT whose row violates a constraint where `conflict` holds.
unfoldable pub insert :
    (Tables → Bool) → (Tables → Tables) → Store → Result Error (Unit {0}) × Store
insert conflict change s =
    if s.fault s.statements
    then (err failed, record s { statements = s.statements + 1 })
    else if conflict s.tables
    then (err constraint, record s { statements = s.statements + 1 })
    else (ok tt, record s { tables = change s.tables; statements = s.statements + 1 })

-- `s.db.Query` and `s.db.QueryRow`, scanned.
unfoldable pub query : {A : Type 0} → (Tables → A) → Store → Result Error A × Store
query read s =
    if s.fault s.statements
    then (err failed, record s { statements = s.statements + 1 })
    else (ok (read s.tables), record s { statements = s.statements + 1 })

-- A statement that fails whatever the state of the database.
abbrev pub failing : {A : Type 0} → Store → Result Error A × Store
failing s = (err failed, record s { statements = s.statements + 1 })

-- `if m.ThreadID == "" && m.ReplyToID != ""`, then `if m.ThreadID == ""`.
unfoldable pub with_thread : Message → Message
unfolding eqb
with_thread m =
    let replied =
      if eqb m.thread_id [] && not (eqb m.reply_to_id [])
      then record m { thread_id = m.reply_to_id }
      else m in
    if eqb replied.thread_id [] then record replied { thread_id = replied.id } else replied

-- ORDER BY timestamp DESC and ASC.
abbrev pub newest_first : Message → Message → Bool
newest_first a b = leb b.timestamp a.timestamp

abbrev pub oldest_first : Message → Message → Bool
oldest_first a b = leb a.timestamp b.timestamp

-- LIMIT, with the default of the searches.
abbrev pub default_limit : ℕ → ℕ
default_limit limit = if leb limit 0 then 50 else limit
