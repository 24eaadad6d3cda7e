-- ===== src/Outbox/Examples.antt =====
-- Concrete histories of the outbox.
use zangpu.Base.{◌≡◌, refl, arith, true, List, [], ◌∷◌, some, codes, ok, ◌≤◌, all_of, not}
use zangpu.Signing.Percent.{is_utf8_after}
use zangpu.Signing.Split.{join}
use zangpu.Signing.Canonical.{text_le}
use zangpu.Signing.Trial.{plain_crypto, plain_crypto-Documented}
use zangpu.Signing.Keyring.{CredentialKeyring, get_key, encrypt}
use zangpu.Outbox.{Action, SyncStatus, ApiClientBinding, Control, find_item, change_item}
use zangpu.Outbox.Binding.{binding_aad, persist_created_binding, decrypt_binding_value}
use zangpu.Outbox.Claim.{claim, insert_item, sort_items, selected}
use zangpu.Outbox.Execute.{created, create, execute}
use zangpu.Outbox.Process.{completed_binding, complete_found, complete, fail}
use zangpu.Outbox.Queue.{add_item}
use zangpu.Outbox.Bounds.{
  Event, IsSound, perform, perform_all, claims, perform_all-IsSound, claims_bounded,
  exhausted_never_claimed,
}
use zangpu.Outbox.Final.{has_read_open, completed_is_final}
use zangpu.Outbox.Reopened.{Reopened}
use zangpu.Outbox.Reached.{Reached, execute_reaches}
use zangpu.Outbox.Protected.{decrypt-persist}
use zangpu.Outbox.Trial.{
  frame_envelope, ring, worker, new_key, bifrost, wanted, client_binding, start, nothing_held,
  queue_events, dying_events, good_events, dead_item, done_item, late_events, claimed_table,
  undone_item, frame_envelope-Faithful, start-IsSound,
}

abbrev after_events : List Event → Control → Control
after_events events s = perform_all worker plain_crypto frame_envelope ring bifrost events s

abbrev queued_state : Control
queued_state = after_events queue_events start

perform_all-IsSound_example : IsSound worker queued_state
perform_all-IsSound_example =
    perform_all-IsSound worker plain_crypto frame_envelope ring bifrost refl queue_events start
      start-IsSound

queued-IsSound : IsSound worker queued_state
queued-IsSound =
    perform_all-IsSound worker plain_crypto frame_envelope ring bifrost refl queue_events start
      start-IsSound

claims_bounded_example :
    claims worker plain_crypto frame_envelope ring bifrost dying_events (codes "i1") queued_state
    ≤ 2
claims_bounded_example =
    claims_bounded worker plain_crypto frame_envelope ring bifrost refl dying_events (codes "i1")
      queued_state queued-IsSound

dead_found : find_item (codes "i1") (after_events dying_events queued_state).items ≡ some dead_item
unfolding find_item change_item perform_all perform add_item claim selected sort_items insert_item
    text_le complete complete_found completed_binding fail
dead_found = refl

-- Long after the claim of the dead worker is out of date.
exhausted_never_claimed_example :
    find_item
      (codes "i1")
      (claim worker 9000 nothing_held (after_events dying_events queued_state)).items
    ≡ some dead_item
exhausted_never_claimed_example =
    exhausted_never_claimed worker plain_crypto frame_envelope ring bifrost
      (after_events dying_events queued_state) (codes "i1") dead_item 9000 nothing_held dead_found
      (omega arith)

done_found : find_item (codes "i1") (after_events good_events queued_state).items ≡ some done_item
unfolding find_item change_item perform_all perform add_item claim selected sort_items insert_item
    text_le complete complete_found completed_binding fail persist_created_binding binding_aad join
    encrypt get_key
done_found = refl

abbrev done_state : Control
done_state = after_events good_events queued_state

read_late : all_of (λ event. not (has_read_open (codes "i1") event)) (late_events done_state) ≡ true
unfolding find_item change_item perform_all perform add_item claim selected sort_items insert_item
    text_le complete complete_found completed_binding fail persist_created_binding binding_aad join
    encrypt get_key
read_late = refl

completed_is_final_example :
    find_item (codes "i1") (after_events (late_events done_state) done_state).items ≡ some done_item
completed_is_final_example =
    completed_is_final worker plain_crypto frame_envelope ring bifrost (late_events done_state)
      done_state (codes "i1") done_item read_late done_found refl

-- A failure whose unlocked read is older than the completion undoes it: the row is failed, with a
-- completion time.
late_failure :
    find_item (codes "i1") (after_events (late_events claimed_table) done_state).items
    ≡ some undone_item
unfolding find_item change_item perform_all perform add_item claim selected sort_items insert_item
    text_le complete complete_found completed_binding fail persist_created_binding binding_aad join
    encrypt get_key
late_failure = refl

created_key : execute bifrost Action.create client_binding wanted ≡ ok (created new_key)
unfolding execute create
created_key = refl

execute_reaches_example : Reached bifrost Action.create client_binding wanted (created new_key)
execute_reaches_example =
    execute_reaches bifrost Action.create client_binding wanted (created new_key) created_key

abbrev synced_binding : ApiClientBinding
synced_binding = record client_binding {
  bifrost_virtual_key_id = some (codes "vk1");
  bifrost_value_ciphertext = some (5 ∷ codes "valuetwelve bytes");
  bifrost_value_key_version = some (codes "k1");
  sync_status = SyncStatus.active;
  updated_at = 11;
}

persisted :
    persist_created_binding plain_crypto frame_envelope ring client_binding new_key
      (codes "twelve bytes")
      11
    ≡ ok synced_binding
unfolding persist_created_binding binding_aad join encrypt get_key
persisted = refl

abbrev newer_ring : CredentialKeyring
newer_ring = record {
  keys = (codes "k2", codes "key two") ∷ (codes "k1", codes "key one") ∷ [];
  active_key_id = codes "k2";
}

kept_key : get_key (codes "k1") newer_ring.keys ≡ get_key (codes "k1") ring.keys
unfolding get_key
kept_key = refl

value_is_text : is_utf8_after 0 0x80 0xBF (codes "value") ≡ true
unfolding is_utf8_after
value_is_text = refl

decrypt-persist_example :
    decrypt_binding_value plain_crypto frame_envelope newer_ring synced_binding ≡ ok (codes "value")
decrypt-persist_example =
    decrypt-persist plain_crypto plain_crypto-Documented frame_envelope frame_envelope-Faithful ring
      newer_ring client_binding synced_binding new_key (codes "twelve bytes") 11 refl value_is_text
      kept_key persisted
