-- ===== src/MultiTenant.antt =====
-- pkg/daemon/multi_tenant.go: the daemon of a server with many users. The goroutines that compute a
-- proof of work are tasks of the server's state, finished one at a time and in any order; a message's
-- id ("msg-" and the clock's nanoseconds) and the values of the source of randomness are arguments.
-- An error that the source only logs leaves no trace.
pub mod Tasks
pub mod Inbox
pub mod Delivery
pub mod Pending
pub mod Resolving
pub mod Federated
pub mod Arrival
use dmail.Prelude.{
  ℕ, ◌+◌, ◌-◌, true, false, Option, none, some, List, [], ◌∷◌, ◌++◌, if◌then◌else◌, Result, ok, err,
  ◌>>=◌, ◌>>◌,
}
use dmail.Prelude.Bytes.{Bytes, codes, eqb}
use dmail.Clock.{unix}
use dmail.Pb.{DmailPacket, Wire}
use dmail.Crypto
use dmail.Crypto.{Primitives}
use dmail.Crypto.Keys.{KeyPair, address, pub_key_from_address}
use dmail.Pow.{default_difficulty}
use dmail.Packet.{build}
use dmail.Node
use dmail.Node.{Dht}
use dmail.Store
use dmail.Store.{Message, User, Store}
use dmail.Store.Multi.{
  no_user, get_user_by_pubkey, save_message_for_user, update_message_status_for_user,
}
use dmail.Auth.Sessions.{CachedSession, SessionCache, get}
use dmail.Federation
use dmail.Federation.{Http, resolve_via_federation, deliver_via_federation}

pub data Error : Type 0 where
  session_expired : Error
  bad_recipient : Crypto.Error → Error
  in_federation : Federation.Error → Error
  in_store : Store.Error → Error
  in_node : Node.Error → Error

-- What a goroutine of SendMessageForUser or SendMessageFederated closes over.
pub record Task : Type 0 where
  pub user_id : Bytes
  pub msg_id : Bytes
  pub subject : Bytes
  pub body : Bytes
  pub reply_to_id : Bytes
  pub keys : KeyPair
  pub recipient_pub : Bytes
  -- the server of the recipient, for a federated message
  pub host : Option Bytes

pub record Server (D : Type 0) : Type 0 where
  pub store : Store
  pub sessions : SessionCache
  pub network : D
  pub pending_pow : ℕ
  pub tasks : List Task

-- The copy of the sender, and the one of a recipient on this server.
abbrev pub sent_message : ℕ → Bytes → Bytes → Bytes → Bytes → Bytes → Bytes → Message
sent_message now msg_id sender_addr recipient_addr subject body reply_to_id = record {
  id = msg_id;
  folder = codes "sent";
  sender_pubkey = sender_addr;
  recipient_pubkey = recipient_addr;
  subject = subject;
  body = body;
  timestamp = unix now;
  is_read = true;
  reply_to_id = reply_to_id;
  thread_id = [];
  status = codes "sending";
}

abbrev pub inbox_message : ℕ → Bytes → Bytes → Bytes → Bytes → Bytes → Bytes → Message
inbox_message now msg_id sender_addr recipient_addr subject body reply_to_id = record {
  id = msg_id;
  folder = codes "inbox";
  sender_pubkey = sender_addr;
  recipient_pubkey = recipient_addr;
  subject = subject;
  body = body;
  timestamp = unix now;
  is_read = false;
  reply_to_id = reply_to_id;
  thread_id = [];
  status = [];
}

abbrev pub session_keys : CachedSession → KeyPair
session_keys c = record { public_key = c.public_key; private_key = c.private_key; mnemonic = [] }

-- `d.pendingPoW.Add(1)` and `go func()`.
abbrev pub start_task : {D : Type 0} → Task → Store → Server D → Server D
start_task task s d = record d {
  store = s;
  pending_pow = d.pending_pow + 1;
  tasks = d.tasks ++ task ∷ [];
}

-- `u.Pubkey == pkAddr`, for the first such user.
unfoldable pub owner_of : Bytes → List User → Option User
owner_of addr [] = none
owner_of addr (r ∷ users) = if eqb r.pubkey addr then some r else owner_of addr users

module _ (u : Bytes → Bytes) (p : Primitives) (w : Wire) {D : Type 0} (dht : Dht D) where
  -- A copy for a user of this server, and the status of the sender's copy.
  unfoldable pub deliver_locally : Bytes → Bytes → User → Message → Store → Store
  deliver_locally user_id msg_id recipient inbox s =
      (update_message_status_for_user user_id msg_id (codes "delivered")
        (save_message_for_user recipient.id inbox s).1).1

  -- From the look at the local users on; `sent` has been saved. The error of the look is dropped, and
  -- the user beside it is the empty one, not nil.
  unfoldable pub route :
      Task
      → Message
      → Result Store.Error (Option User) × Store
      → Server D
      → Result Error (Unit {0}) × Server D
  unfolding deliver_locally
  route task inbox (ok (some recipient), s) d =
      (ok tt, record d { store = deliver_locally task.user_id task.msg_id recipient inbox s })
  route task inbox (ok none, s) d = (ok tt, start_task task s d)
  route task inbox (err _, s) d =
      (ok tt, record d { store = deliver_locally task.user_id task.msg_id no_user inbox s })

  unfoldable pub send_from :
      ℕ
      → Bytes
      → Bytes
      → Bytes
      → Bytes
      → Bytes
      → Bytes
      → CachedSession
      → Bytes
      → Server D
      → Result Error (Unit {0}) × Server D
  unfolding route
  send_from now msg_id user_id recipient_addr subject body reply_to_id session recipient_pub d =
      let sender_addr = address p session.public_key in
      let sent = sent_message now msg_id sender_addr recipient_addr subject body reply_to_id in
      let inbox = inbox_message now msg_id sender_addr recipient_addr subject body reply_to_id in
      let task : Task = record {
        user_id = user_id;
        msg_id = msg_id;
        subject = subject;
        body = body;
        reply_to_id = reply_to_id;
        keys = session_keys session;
        recipient_pub = recipient_pub;
        host = none;
      } in
      route task inbox
        (get_user_by_pubkey recipient_addr (save_message_for_user user_id sent d.store).1) d

  unfoldable pub send_message_for_user :
      ℕ
      → Bytes
      → Bytes
      → Bytes
      → Bytes
      → Bytes
      → Bytes
      → Server D
      → Result Error (Unit {0}) × Server D
  unfolding send_from
  send_message_for_user now msg_id user_id recipient_addr subject body reply_to_id d =
      elim (get now user_id d.sessions) [
        | none ↦ (err session_expired, d)
        | some session ↦ elim (pub_key_from_address p recipient_addr) [
          | err e ↦ (err (bad_recipient e), d)
          | ok recipient_pub ↦
              send_from now msg_id user_id recipient_addr subject body reply_to_id session
                recipient_pub d
        ]
      ]

  module _ (h : Http) where
    unfoldable pub send_federated_from :
        ℕ
        → Bytes
        → Bytes
        → Bytes
        → Bytes
        → Bytes
        → Bytes
        → Bytes
        → CachedSession
        → Bytes
        → Server D
        → Server D
    send_federated_from now msg_id user_id addr host subject body reply_to_id session recipient_pub
          d =
        let sender_addr = address p session.public_key in
        let sent = sent_message now msg_id sender_addr addr subject body reply_to_id in
        start_task
          (record {
            user_id = user_id;
            msg_id = msg_id;
            subject = subject;
            body = body;
            reply_to_id = reply_to_id;
            keys = session_keys session;
            recipient_pub = recipient_pub;
            host = some host;
          })
          (save_message_for_user user_id sent d.store).1 d

    unfoldable pub send_message_federated :
        ℕ
        → Bytes
        → Bytes
        → Bytes
        → Bytes
        → Bytes
        → Bytes
        → Bytes
        → Server D
        → Result Error (Unit {0}) × Server D
    unfolding send_federated_from
    send_message_federated now msg_id user_id username host subject body reply_to_id d =
        elim (get now user_id d.sessions) [
          | none ↦ (err session_expired, d)
          | some session ↦ elim (resolve_via_federation h username host) [
            | err e ↦ (err (in_federation e), d)
            | ok addr ↦ elim (pub_key_from_address p addr) [
              | err e ↦ (err (bad_recipient e), d)
              | ok recipient_pub ↦ (
                ok tt,
                send_federated_from now msg_id user_id addr host subject body reply_to_id session
                    recipient_pub d,
              )
            ]
          ]
        ]

    abbrev set_status : Task → Bytes → Server D → Server D
    set_status t status d = record d {
      store = (update_message_status_for_user t.user_id t.msg_id status d.store).1;
    }

    -- `d.Node.Push`, then the status "sent".
    unfoldable pub push_packet : Task → Result Node.Error (Unit {0}) × D → Server D → Server D
    push_packet t (ok _, net) d = set_status t (codes "sent") (record d { network = net })
    push_packet t (err _, net) d = record d { network = net }

    -- The rest of a federated task, where the packet was marshalled.
    unfoldable pub deliver_packet : Task → Bytes → DmailPacket → Bytes → Server D → Server D
    unfolding push_packet
    deliver_packet t host pkt pkt_data d = elim (deliver_via_federation h host pkt_data) [
      | ok _ ↦ set_status t (codes "delivered") d
      | err _ ↦ push_packet t (Node.push u p w dht d.network pkt) d
    ]

    unfoldable pub send_packet : Task → Option Bytes → DmailPacket → Server D → Server D
    unfolding push_packet deliver_packet
    send_packet t none pkt d = push_packet t (Node.push u p w dht d.network pkt) d
    send_packet t (some host) pkt d = elim (w.marshal_packet pkt) [
      | none ↦ d
      | some pkt_data ↦ deliver_packet t host pkt pkt_data d
    ]

    -- The body of the goroutine, without its deferred calls.
    unfoldable pub task_body : ℕ → Bytes → Option Bytes → Task → Server D → Server D
    unfolding send_packet
    task_body now message_id random t d =
        elim (build p w t.subject t.body t.reply_to_id t.keys t.recipient_pub default_difficulty now
          message_id random) [ err _ ↦ d | ok pkt ↦ send_packet t t.host pkt d ]

    -- The goroutine to its end, deferred calls included; `task` is in the list of the tasks.
    unfoldable pub finish_task :
        ℕ → Bytes → Option Bytes → List Task → Task → List Task → Server D → Server D
    unfolding task_body
    finish_task now message_id random before task after d =
        let done = task_body now message_id random task d in
        record done { pending_pow = done.pending_pow - 1; tasks = before ++ after }
