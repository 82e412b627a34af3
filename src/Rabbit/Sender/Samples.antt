-- ===== src/Rabbit/Sender/Samples.antt =====
-- Runs of internal/rabbit/sender.go: one send on a fresh channel, its confirmation, and a lost channel.
use reactive_commons_go.Base.{
  ℕ, ◌+◌, ◌≡◌, ◌≢◌, refl, true, false, [], arith, none, some, eqb, if◌then◌else◌,
}
use reactive_commons_go.Base.NatDict.{find, put, remove}
use reactive_commons_go.Rabbit.Sender.{
  Reply, Sender, publish_failed, fail_pending_locked, register, publish_confirmed, Confirmation,
  reply_of, dispatch_confirm, install, send_no_confirm, abandon, Replacement, rebuild,
}
use reactive_commons_go.Rabbit.Sender.Pending.{
  PendingIsValid, Answers, fail_pending_locked-releases, dispatch_confirm-Answers,
  publish_confirmed-restores,
}
use reactive_commons_go.Rabbit.Sender.World.{
  World, free, registered, notifying, takes_channel, notifies, registers, publishes, releases,
  installs, Reachable, starts, and_then, new_world, new_sender, publish_on, notify_on,
}
use reactive_commons_go.Rabbit.Sender.Alignment.{IsAligned}
use reactive_commons_go.Rabbit.Sender.Reachability.{
  Reachable-IsAligned, confirm_reaches_its_send, notify_shifts_tags,
}
use reactive_commons_go.Rabbit.Sender.Rebuild.{Outcome, rebuild-Outcome}

-- The worlds of one send: with channel 7, registered, published, and with the slot free again.
abbrev w1 : World
w1 = record new_world { sender = install 7 new_sender }

abbrev w2 : World
w2 = record w1 { sender = (register w1.sender).0; slot = registered (register w1.sender).1 }

abbrev w3 : World
w3 = publish_on 7 (register w1.sender).1 w2

abbrev w4 : World
w4 = record w3 { slot = free }

reachable1 : Reachable w1
reachable1 =
    and_then new_world w1 starts
      (installs new_world 7 refl (λ r e. ground (arith, e)) (λ e. ground (arith, e)))

reachable2 : Reachable w2
unfolding install fail_pending_locked
reachable2 = and_then w1 w2 reachable1 (registers w1 refl (ground arith))

reachable3 : Reachable w3
unfolding register install
reachable3 = and_then w2 w3 reachable2 (publishes w2 (register w1.sender).1 7 refl refl refl)

reachable4 : Reachable w4
reachable4 = and_then w3 w4 reachable3 (releases w3 (register w1.sender).1 refl)

-- And then a notification on channel 7, which has carried one message.
abbrev w5 : World
w5 = record w4 { slot = notifying (some 7) }

reachable_notified : Reachable (notify_on 7 w5)
unfolding install fail_pending_locked register
reachable_notified =
    and_then w5 (notify_on 7 w5) (and_then w4 w5 reachable4 (takes_channel w4 refl))
      (notifies w5 7 refl refl)

abbrev confirmation : Confirmation
confirmation = record { delivery_tag = 1; ack = true }

-- The sender once the waiter has its reply.
abbrev confirmed : Sender
confirmed = record w4.sender {
  pending = [];
  inbox = λ v. if eqb 0 v then some none else w4.sender.inbox v;
}

confirms_one : dispatch_confirm 1 confirmation w4.sender ≡ some confirmed
unfolding dispatch_confirm find remove register put install fail_pending_locked
confirms_one = refl

registered_one : find 1 w4.sender.pending ≡ some 0
unfolding find register put install fail_pending_locked
registered_one = refl

confirm_reaches_its_send_example :
    (w4.log 7 1 ≡ some 0) × (confirmed.inbox 0 ≡ some (reply_of confirmation))
unfolding install fail_pending_locked register
confirm_reaches_its_send_example =
    confirm_reaches_its_send w4 7 0 confirmation confirmed reachable4 refl refl refl (ground arith)
      confirms_one registered_one

Reachable-IsAligned_example : IsAligned w4
Reachable-IsAligned_example = Reachable-IsAligned w4 reachable4

notify_shifts_tags_example :
    (send_no_confirm true w4.sender ≡ none)
    × (let r = (register w4.sender).1 in
        let v = publish_on 7 r (notify_on 7 w4) in
        (find r.tag (register w4.sender).0.pending ≡ some r.waiter)
        × (v.log 7 r.tag ≡ none)
        × (v.log 7 (r.tag + 1) ≡ some r.waiter))
unfolding install fail_pending_locked register
notify_shifts_tags_example = notify_shifts_tags w4 7 reachable4 refl refl refl refl (ground arith)

w4-PendingIsValid : PendingIsValid w4.sender
w4-PendingIsValid = (Reachable-IsAligned w4 reachable4).valid

dispatch_confirm-Answers_example :
    (t : Sender) × (dispatch_confirm 1 confirmation w4.sender ≡ some t)
    × Answers 1 confirmation w4.sender t
dispatch_confirm-Answers_example =
    dispatch_confirm-Answers 1 confirmation w4.sender w4-PendingIsValid

fail_pending_locked-releases_example :
    ((fail_pending_locked w4.sender).pending ≡ [])
    × ((fail_pending_locked w4.sender).next_tag ≡ 0)
    × ((t w : ℕ)
        → find t w4.sender.pending ≡ some w
        → (fail_pending_locked w4.sender).inbox w ≢ none)
    × ((w : ℕ) (r : Reply)
        → w4.sender.inbox w ≡ some r
        → (fail_pending_locked w4.sender).inbox w ≡ some r)
fail_pending_locked-releases_example = fail_pending_locked-releases w4.sender

-- What happens while a send publishes: the waiter of tag 1 gives up.
abbrev meanwhile : Sender → Sender
meanwhile = abandon 1 0

publish_confirmed-restores_example :
    ((publish_confirmed false false meanwhile w4.sender).0.next_tag ≡ w4.sender.next_tag)
    × ((k : ℕ)
        → find k (meanwhile (register w4.sender).0).pending ≡ find k (register w4.sender).0.pending
        → find k (publish_confirmed false false meanwhile w4.sender).0.pending
          ≡ find k w4.sender.pending)
unfolding publish_confirmed register abandon find put remove install fail_pending_locked
publish_confirmed-restores_example =
    publish_confirmed-restores false false meanwhile w4.sender publish_failed (ground arith) refl
      refl refl refl

abbrev rebuilt : Replacement
rebuilt = rebuild 1 true w4.sender true (some (8, false)) w4.sender true false

rebuild-Outcome_example :
    Outcome 1 (some (8, false)) false w4.sender rebuilt.sender rebuilt.ends rebuilt.closed
rebuild-Outcome_example =
    rebuild-Outcome 1 true w4.sender true (some (8, false)) w4.sender true false
