-- ===== src/Store/Tenants.antt =====
-- Messages of the users of one server: each user lists what was saved for that user, and nothing that
-- was saved for another.
use mathlib.Core.List.{Mem, mem-append_right, mem-cons_self, mem-map_of_mem}
use mathlib.Core.List.Perm
use dmail.Prelude.{
  ◌≡◌, refl, sym, ap, ◌∙◌, ◌≢◌, inl, inr, Bool, true, false, ◌&&◌, not, List, [], ◌∷◌, ◌++◌, map,
  arith, Bool-cases, length, filter, filter-append, ok,
}
use dmail.Prelude.Bytes.{Bytes, eqb, eqb_iff, eqb_refl}
use dmail.Sql.{delete, replace, update, order_by}
use dmail.Sql.Order.{order_by-perm}
use dmail.Store.{Message, Store, newest_first, with_thread}
use dmail.Store.Integrity.{message_key}
use dmail.Store.Multi.{
  scoped, save_message_for_user, is_scoped_to, strip_scope, list_messages_for_user,
  count_unread_for_user, update_message_status_for_user,
}
use dmail.Store.Messages.{
  IsReliable, changed, on_messages, exec-changed, query-read, with_thread-folder,
}
use dmail.Store.Scope.{
  IsUuid, is_scoped_to-scoped, strip_scope-scoped, filter-replace_other, filter-update_other,
}

-- The row that SaveMessageForUser writes.
abbrev pub row_of : Bytes → Message → Message
row_of v m = record (with_thread m) { id = scoped v (with_thread m).id }

abbrev of_folder : Bytes → Bytes → Message → Bool
of_folder u folder r = is_scoped_to u r && eqb r.folder folder

-- Another user's row is in no selection of this user.
refused :
    (u v id : Bytes) (rest : Message → Bool) (x : Message)
    → IsUuid u
    → IsUuid v
    → u ≢ v
    → x.id ≡ scoped v id
    → (is_scoped_to u x && rest x) ≡ false
refused u v id rest x hu hv other e =
    let apart : eqb u v ≡ false = elim (Bool-cases (eqb u v)) [
      | inl same ↦ absurd (other ((eqb_iff u v).0 same))
      | inr differ ↦ differ
    ] in
    ground (arith, is_scoped_to-scoped u v x id hu hv e)

module _ (s : Store) (r : IsReliable s) (u folder : Bytes) where
  list_messages_for_user-eq :
      (list_messages_for_user u folder s).0
      ≡ ok (map (strip_scope u) (order_by newest_first (filter (of_folder u folder) s.messages)))
  unfolding list_messages_for_user
  list_messages_for_user-eq = ap (λ (x : _ × Store). x.0) (query-read _ s r)

module _ (s : Store) (r : IsReliable s) (u folder : Bytes) where
  save : Bytes → Message → Store
  save v m = changed (on_messages (replace message_key (row_of v m))) s

  save_message_for_user-changed :
      (v : Bytes) (m : Message) → (save_message_for_user v m s).1 ≡ save v m
  unfolding save_message_for_user save
  save_message_for_user-changed v m =
      ap (λ (x : _ × Store). x.1)
        (exec-changed (on_messages (replace message_key (row_of v m))) s r)

  -- Where no statement fails and the ids of two users are UUIDs, saving a message for one of them
  -- changes neither the folders nor the unread counts of the other.
  pub list_messages_for_user-save_other :
      (v : Bytes) (m : Message)
      → IsUuid u
      → IsUuid v
      → u ≢ v
      → ((list_messages_for_user u folder (save_message_for_user v m s).1).0
          ≡ (list_messages_for_user u folder s).0)
        × ((count_unread_for_user u folder (save_message_for_user v m s).1).0
            ≡ (count_unread_for_user u folder s).0)
  unfolding save list_messages_for_user count_unread_for_user
  list_messages_for_user-save_other v m hu hv other =
      let same = λ (rest : Message → Bool).
        let kept : filter (λ x. is_scoped_to u x && rest x)
              (replace message_key (row_of v m) s.messages)
            ≡ filter (λ x. is_scoped_to u x && rest x) s.messages =
          filter-replace_other (λ x. is_scoped_to u x && rest x) (row_of v m) s.messages
            (λ x e. refused u v (with_thread m).id rest x hu hv other e) in
        kept in
      rw (save_message_for_user-changed v m) (
        list_messages_for_user-eq (save v m) r u folder
            ∙ ap (λ rows. ok (map (strip_scope u) (order_by newest_first rows)))
                (same (λ x. eqb x.folder folder))
            ∙ sym (list_messages_for_user-eq s r u folder),
        rw (query-read _ (save v m) r, query-read _ s r)
            (ap (λ (rows : List Message). ok (length rows))
              (same (λ x. eqb x.folder folder && not x.is_read))),
      )

  -- Where no statement fails, a message saved for a user whose id is a UUID is listed in its folder
  -- for that user under its own id, with its thread filled in.
  pub list_messages_for_user-save_own :
      (m : Message)
      → IsUuid u
      → m.folder ≡ folder
      → (ms : List Message) × ((list_messages_for_user u folder (save_message_for_user u m s).1).0
          ≡ ok ms)
        × Mem (with_thread m) ms
  unfolding save delete replace
  list_messages_for_user-save_own m hu at =
      let row = row_of u m in
      let p = of_folder u folder in
      let rows = delete message_key row.id s.messages in
      let kept : p row ≡ true = ground (
        arith,
        is_scoped_to-scoped u u row (with_thread m).id hu hu refl,
        eqb_refl u,
        eqb_iff row.folder folder,
        with_thread-folder m,
      ) in
      let found : Mem row (filter p (rows ++ row ∷ [])) =
        rw (filter-append p rows (row ∷ []), kept)
          (mem-append_right (filter p rows) mem-cons_self) in
      let listed : Mem row (order_by newest_first (filter p (rows ++ row ∷ []))) =
        Perm.subset (Perm.symm (order_by-perm newest_first _)) row found in
      (
        map (strip_scope u) (order_by newest_first (filter p (rows ++ row ∷ []))),
        rw (save_message_for_user-changed u m) (list_messages_for_user-eq (save u m) r u folder),
        rw (strip_scope-scoped u row (with_thread m).id refl) at
            (mem-map_of_mem (strip_scope u) listed),
      )

module _ (s : Store) (r : IsReliable s) (u folder : Bytes) where
  -- Where no statement fails and the ids of two users are UUIDs, changing the status of a message
  -- of one does not change the folders of the other.
  pub list_messages_for_user-update_other :
      (v id status : Bytes)
      → IsUuid u
      → IsUuid v
      → u ≢ v
      → (list_messages_for_user u folder (update_message_status_for_user v id status s).1).0
        ≡ (list_messages_for_user u folder s).0
  unfolding update_message_status_for_user
  list_messages_for_user-update_other v id status hu hv other =
      let set = λ (m : Message). record m { status = status } in
      let change = on_messages (update message_key (scoped v id) set) in
      rw (exec-changed change s r) (
        list_messages_for_user-eq (changed change s) r u folder
        ∙ ap (λ rows. ok (map (strip_scope u) (order_by newest_first rows)))
            (filter-update_other (of_folder u folder) (scoped v id) set s.messages (λ m. refl)
              (λ x e. refused u v id (λ y. eqb y.folder folder) x hu hv other e))
        ∙ sym (list_messages_for_user-eq s r u folder))
