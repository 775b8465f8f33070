-- ===== src/Api/Receipts.antt =====
-- Reading one message over the API of many users, and the receipt that its sender gets.
use dmail.Prelude.{◌≡◌, refl, ap, ◌∙◌, true, some, [], ◌∷◌, arith, ok}
use dmail.Prelude.Bytes.{Bytes, codes, eqb_refl}
use dmail.Sql.{find}
use dmail.Sql.Keys.{find-update}
use dmail.Store.{Message, User, Store}
use dmail.Store.Single.{get_message, mark_read}
use dmail.Store.Multi.{scoped, get_user_by_pubkey}
use dmail.Store.Integrity.{message_key}
use dmail.Store.Messages.{IsReliable, changed, on_messages, exec-changed, query-read}
use dmail.Store.Scope.{IsUuid}
use dmail.Store.Mailboxes.{
  read, set_status, specify_all, specify, perform, mailboxes, Represents, rows-specify,
  perform-Represents, rows,
}
use dmail.Api.{no_content}
use dmail.Api.Mailbox.{confirm_read, propagate_receipt, read_reply, handle_mt_mark_read}

module _ (s : Store) (r : IsReliable s) (v id : Bytes) (m : Message) (sender : User) where
  abbrev set : Message → Message
  set x = record x { is_read = true }

  -- The store after MarkRead, and after the two look-ups.
  abbrev marked : Store
  marked = changed (on_messages (rows (read v id))) s

  abbrev looked_up : Store
  looked_up = changed (λ t. t) (changed (λ t. t) marked)

  -- The reader has the message, and its sender is a user of the server.
  pub record IsFrom : Type 0 where
    pub has : find message_key (scoped v id) s.messages ≡ some m
    pub local : find (λ x. x.pubkey) m.sender_pubkey s.users ≡ some sender

  message_found :
      IsFrom → get_message (scoped v id) marked ≡ (ok (some (set m)), changed (λ t. t) marked)
  unfolding get_message
  message_found f =
      query-read (λ t. find message_key (scoped v id) t.messages) marked r
      ∙ ap (λ o. (ok o, changed (λ t. t) marked))
          (find-update message_key (scoped v id) set (scoped v id) s.messages (λ x. refl)
            ∙ rw f.has (rw (eqb_refl (scoped v id))))

  sender_found :
      IsFrom
      → get_user_by_pubkey m.sender_pubkey (changed (λ t. t) marked) ≡ (ok (some sender), looked_up)
  unfolding get_user_by_pubkey
  sender_found f =
      query-read (λ t. find (λ x. x.pubkey) m.sender_pubkey t.users) (changed (λ t. t) marked) r
      ∙ ap (λ o. (ok o, looked_up)) f.local

  handle_mt_mark_read-eq :
      IsFrom
      → handle_mt_mark_read v id s
        ≡ (no_content, perform (set_status sender.id id (codes "read")) looked_up)
  unfolding handle_mt_mark_read read_reply propagate_receipt confirm_read mark_read perform
  handle_mt_mark_read-eq f =
      ap (read_reply v id) (exec-changed (on_messages (rows (read v id))) s r)
      ∙ ap (λ x. (no_content, propagate_receipt id x)) (message_found f)
      ∙ ap (λ x. (no_content, confirm_read id x)) (sender_found f)

  -- Where no statement fails and the ids of all users are UUIDs: a user who marks a message of a
  -- user of the server as read is answered 204, and then the message is read in that mailbox, and
  -- the sender's message of the same id has the status "read"; no other message changes.
  pub handle_mt_mark_read-receipt :
      IsFrom
      → IsUuid v
      → IsUuid sender.id
      → ((handle_mt_mark_read v id s).0 ≡ no_content)
        × Represents (handle_mt_mark_read v id s).1 (
            specify_all
              (read v id ∷ set_status sender.id id (codes "read") ∷ [])
              (mailboxes s.messages))
  unfolding specify_all
  handle_mt_mark_read-receipt f hv hs =
      let after : Represents looked_up (specify (read v id) (mailboxes s.messages)) =
        λ u i hu. rows-specify (read v id) s.messages u i hv hu in
      rw (handle_mt_mark_read-eq f)
        (refl, perform-Represents (set_status sender.id id (codes "read")) looked_up _ r hs after)

  -- Where no statement fails: a user who marks the copy of a message of their own as read, sent to
  -- whomever, is answered 204 and then sees it with the status "read".
  pub handle_mt_mark_read-own :
      IsFrom
      → IsUuid v
      → sender.id ≡ v
      → ((handle_mt_mark_read v id s).0 ≡ no_content)
        × (mailboxes (handle_mt_mark_read v id s).1.messages v id
            ≡ some (record m { id = id; is_read = true; status = codes "read" }))
  unfolding specify_all specify
  handle_mt_mark_read-own f hv own =
      let hs : IsUuid sender.id = rw own hv in
      let (reply, all) = handle_mt_mark_read-receipt f hv hs in
      (reply, all v id hv ∙ ground (arith, f.has, own, eqb_refl v, eqb_refl id))
