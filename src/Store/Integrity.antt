-- ===== src/Store/Integrity.antt =====
-- The schema's keys hold whatever is written.
use dmail.Prelude.{
  ℕ, ◌+◌, ◌<◌, ◌≡◌, refl, sym, ap, ◌∙◌, ◌≢◌, inl, inr, Bool, false, ◌||◌, none, List, [], ◌∷◌, ◌++◌,
  map, arith, Bool-cases, any, All, All-append,
}
use dmail.Prelude.Bytes.{Bytes, eqb}
use dmail.Sql.{find, update}
use dmail.Sql.Keys.{IsUnique, replace-IsUnique, delete-IsUnique, update-IsUnique, insert-IsUnique}
use dmail.Store.{
  Message, NameEntry, Contact, StoredKey, User, PendingPacket, Tables, Store, exec, insert,
  with_thread,
}
use dmail.Store.Single
use dmail.Store.Multi
use dmail.Store.Multi.{scoped}
use dmail.Store.Operations.{Write, write, run}

abbrev pub message_key : Message → Bytes
message_key r = r.id

-- Packet ids are below the next one, and no two are the same.
abbrev pub ArePacketIds : ℕ → List PendingPacket → Type 0
ArePacketIds next [] = Unit
ArePacketIds next (r ∷ rows) = (r.id < next) × All (λ x. x.id ≢ r.id) rows × ArePacketIds next rows

-- The PRIMARY KEY, UNIQUE and AUTOINCREMENT declarations of the schema.
pub record IsWellFormed (t : Tables) : Type 0 where
  pub messages : IsUnique message_key t.messages
  pub contacts : IsUnique (λ r. r.pubkey) t.contacts
  pub keypair : IsUnique (λ r. r.pubkey) t.keypair
  pub names : IsUnique (λ r. r.name) t.names
  pub user_ids : IsUnique (λ r. r.id) t.users
  pub usernames : IsUnique (λ r. r.username) t.users
  pub packets : ArePacketIds t.next_packet_id t.pending_packets

-- What a change of the tables keeps, the statement keeps, whether it fails or not.
module _ (P : Tables → Type 0) (s : Store) (holds : P s.tables) where
  pub exec-keeps :
      (change : Tables → Tables) → (P s.tables → P (change s.tables)) → P (exec change s).1.tables
  unfolding exec
  exec-keeps change keep = elim (Bool-cases (s.fault s.statements)) [
    | inl fails ↦ rw fails holds
    | inr runs ↦ rw runs (keep holds)
  ]

  pub insert-keeps :
      (conflict : Tables → Bool) (change : Tables → Tables)
      → (conflict s.tables ≡ false → P s.tables → P (change s.tables))
      → P (insert conflict change s).1.tables
  unfolding insert
  insert-keeps conflict change keep = elim (Bool-cases (s.fault s.statements)) [
    | inl fails ↦ rw fails holds
    | inr runs ↦ rw runs (elim (Bool-cases (conflict s.tables)) [
      | inl clash ↦ rw clash holds
      | inr free ↦ rw free (keep free holds)
    ])
  ]

find_of_any :
    (u : User) (rows : List User)
    → any (λ r. eqb r.id u.id || eqb r.username u.username) rows ≡ false
    → (find (λ r. r.id) u.id rows ≡ none) × (find (λ r. r.username) u.username rows ≡ none)
unfolding find
find_of_any u [] h = (refl, refl)
find_of_any u (r ∷ rows) h = ground (arith, find_of_any u rows)

dated_keys :
    (now : ℕ) (u : User)
    → ((Multi.dated now u).id ≡ u.id) × ((Multi.dated now u).username ≡ u.username)
unfolding Multi.dated
dated_keys now u = ground arith

packets-grow :
    (next : ℕ) (rows : List PendingPacket) (row : PendingPacket)
    → row.id ≡ next
    → ArePacketIds next rows
    → ArePacketIds (next + 1) (rows ++ row ∷ [])
packets-grow next [] row e h = (omega arith, tt, tt)
packets-grow next (r ∷ rows) row e (below, others, rest) = (
  omega arith,
  All-append (λ x. x.id ≢ r.id) rows (row ∷ []) others ((λ same. absurd (omega arith)), tt),
  packets-grow next rows row e rest,
)

-- Updates of packets that keep their ids.
module _ (set : PendingPacket → PendingPacket)
    (keeps : (r : PendingPacket) → (set r).id ≡ r.id) where
  map-others :
      (k : ℕ) (rows : List PendingPacket)
      → All (λ x. x.id ≢ k) rows
      → All (λ x. x.id ≢ k) (map set rows)
  map-others k [] h = tt
  map-others k (r ∷ rows) h = ((λ e. h.0 (sym (keeps r) ∙ e)), map-others k rows h.1)

  packets-map :
      (next : ℕ) (rows : List PendingPacket)
      → ArePacketIds next rows
      → ArePacketIds next (map set rows)
  packets-map next [] h = tt
  packets-map next (r ∷ rows) (below, others, rest) = (
    omega (arith, keeps r),
    rw (keeps r) (map-others r.id rows others),
    packets-map next rows rest,
  )

-- A change of one table.
module _ (t : Tables) (f : IsWellFormed t) where
  with_messages :
      (rows : List Message)
      → IsUnique message_key rows
      → IsWellFormed (record t { messages = rows })
  with_messages rows unique = record {
    messages = unique;
    contacts = f.contacts;
    keypair = f.keypair;
    names = f.names;
    user_ids = f.user_ids;
    usernames = f.usernames;
    packets = f.packets;
  }

  with_contacts :
      (rows : List Contact)
      → IsUnique (λ r. r.pubkey) rows
      → IsWellFormed (record t { contacts = rows })
  with_contacts rows unique = record {
    messages = f.messages;
    contacts = unique;
    keypair = f.keypair;
    names = f.names;
    user_ids = f.user_ids;
    usernames = f.usernames;
    packets = f.packets;
  }

  with_keypair :
      (rows : List StoredKey)
      → IsUnique (λ r. r.pubkey) rows
      → IsWellFormed (record t { keypair = rows })
  with_keypair rows unique = record {
    messages = f.messages;
    contacts = f.contacts;
    keypair = unique;
    names = f.names;
    user_ids = f.user_ids;
    usernames = f.usernames;
    packets = f.packets;
  }

  with_names :
      (rows : List NameEntry)
      → IsUnique (λ r. r.name) rows
      → IsWellFormed (record t { names = rows })
  with_names rows unique = record {
    messages = f.messages;
    contacts = f.contacts;
    keypair = f.keypair;
    names = unique;
    user_ids = f.user_ids;
    usernames = f.usernames;
    packets = f.packets;
  }

  with_users :
      (rows : List User)
      → IsUnique (λ r. r.id) rows
      → IsUnique (λ r. r.username) rows
      → IsWellFormed (record t { users = rows })
  with_users rows ids usernames = record {
    messages = f.messages;
    contacts = f.contacts;
    keypair = f.keypair;
    names = f.names;
    user_ids = ids;
    usernames = usernames;
    packets = f.packets;
  }

  with_packets :
      (next : ℕ) (rows : List PendingPacket)
      → ArePacketIds next rows
      → IsWellFormed (record t { pending_packets = rows; next_packet_id = next })
  with_packets next rows ids = record {
    messages = f.messages;
    contacts = f.contacts;
    keypair = f.keypair;
    names = f.names;
    user_ids = f.user_ids;
    usernames = f.usernames;
    packets = ids;
  }

module _ (s : Store) (f : IsWellFormed s.tables) where
  update_row :
      (k : Bytes) (set : Message → Message)
      → ((r : Message) → message_key (set r) ≡ message_key r)
      → IsWellFormed (record s.tables { messages = update message_key k set s.messages })
  update_row k set keeps =
      with_messages s.tables f _ (update-IsUnique message_key k set keeps s.messages f.messages)

  write-IsWellFormed : (c : Write) → IsWellFormed (write c s).1.tables
  unfolding write Single.save_message Single.mark_read Single.delete_message
      Single.update_message_status Single.save_contact Single.delete_contact Single.save_key_pair
      Single.save_name Multi.create_user Multi.save_pending_packet Multi.mark_packet_processed
      Multi.save_message_for_user Multi.update_message_status_for_user
  write-IsWellFormed (Write.save_message m) = exec-keeps IsWellFormed s f _ λ f.
      with_messages s.tables f _
        (replace-IsUnique message_key (with_thread m) s.messages f.messages)
  write-IsWellFormed (Write.mark_read id) =
      exec-keeps IsWellFormed s f _ λ _. update_row id _ (λ r. refl)
  write-IsWellFormed (Write.delete_message id) =
      exec-keeps IsWellFormed s f _ λ _. update_row id _ (λ r. refl)
  write-IsWellFormed (Write.update_message_status id status) =
      exec-keeps IsWellFormed s f _ λ _. update_row id _ (λ r. refl)
  write-IsWellFormed (Write.save_contact now c) =
      exec-keeps IsWellFormed s f _
        λ f. with_contacts s.tables f _ (replace-IsUnique (λ r. r.pubkey) _ s.contacts f.contacts)
  write-IsWellFormed (Write.delete_contact pubkey) =
      exec-keeps IsWellFormed s f _ λ f.
        with_contacts s.tables f _ (delete-IsUnique (λ r. r.pubkey) pubkey s.contacts f.contacts)
  write-IsWellFormed (Write.save_key_pair pubkey key) =
      exec-keeps IsWellFormed s f _
        λ f. with_keypair s.tables f _ (replace-IsUnique (λ r. r.pubkey) _ s.keypair f.keypair)
  write-IsWellFormed (Write.save_name n) =
      exec-keeps IsWellFormed s f _
        λ f. with_names s.tables f _ (replace-IsUnique (λ r. r.name) n s.names f.names)
  write-IsWellFormed (Write.create_user now u) = insert-keeps IsWellFormed s f _ _ λ free f.
      let (id, username) = find_of_any u s.users free in
      with_users s.tables f _
        (insert-IsUnique (λ r. r.id) (Multi.dated now u) s.users
          (ap (λ k. find (λ r. r.id) k s.users) (dated_keys now u).0 ∙ id) f.user_ids)
        (insert-IsUnique (λ r. r.username) (Multi.dated now u) s.users
          (ap (λ k. find (λ r. r.username) k s.users) (dated_keys now u).1 ∙ username) f.usernames)
  write-IsWellFormed (Write.save_pending_packet now user raw sender) =
      exec-keeps IsWellFormed s f _ λ f.
        with_packets s.tables f _ _
          (packets-grow s.next_packet_id s.pending_packets _ refl f.packets)
  write-IsWellFormed (Write.mark_packet_processed id) = exec-keeps IsWellFormed s f _ λ f.
      with_packets s.tables f _ _
        (packets-map _ (λ r. ground arith) s.next_packet_id s.pending_packets f.packets)
  write-IsWellFormed (Write.save_message_for_user user m) =
      exec-keeps IsWellFormed s f _
        λ f. with_messages s.tables f _ (replace-IsUnique message_key _ s.messages f.messages)
  write-IsWellFormed (Write.update_message_status_for_user user id status) =
      exec-keeps IsWellFormed s f _ λ _. update_row (scoped user id) _ (λ r. refl)

-- From tables whose primary keys, user names and packet ids are unique, every sequence of writes,
-- whichever of its statements fail, leads to such tables.
pub run-IsWellFormed :
    (cs : List Write) (s : Store) → IsWellFormed s.tables → IsWellFormed (run cs s).tables
unfolding run
run-IsWellFormed [] s f = f
run-IsWellFormed (c ∷ cs) s f = run-IsWellFormed cs (write c s).1 (write-IsWellFormed s f c)
