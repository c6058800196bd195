-- ===== src/Tests/History.antt =====
-- Observations, pages and the history task on concrete inputs.
use smoker_firmware.Common.{
  map, take, drop, if◌then◌else◌, inl, ap, ◌∙◌, ℕ, ◌+◌, ◌≤◌, ◌≡◌, refl, List, [], ◌∷◌, ◌++◌, true,
  false, Option, none, some, arith, ltb, length, replicate, any_of, Bool,
}
use smoker_firmware.Common.Int.{ℤ, pos}
use smoker_firmware.Common.Float32
use smoker_firmware.Common.Float32.{hundred}
use smoker_firmware.Core.Domain.{
  ProbeRole, SessionStatus, StopReason, FaultCode, AlarmCode, from_percent,
}
use smoker_firmware.History.{ObservationKind, StorageState, Observation}
use smoker_firmware.History.Codec.{encode_observation, decode_observation}
use smoker_firmware.History.Codec.RoundTrip.{
  IsStorable, stored, decode_observation-encode_observation,
}
use smoker_firmware.History.Policy.{
  WriteAttempt, HistoryTask, history_round, history_rounds, admit, new_task,
}
use smoker_firmware.History.Policy.Order
use smoker_firmware.History.Policy.Order.{lifecycles, ledger, Reach-ledger}
use smoker_firmware.History.Policy.Ends.{backlog, history_rounds_empty}
use smoker_firmware.History.Eviction.{
  PageInfo, session_is_pending_eviction, erase_others, complete_pending_eviction,
}
use smoker_firmware.History.Eviction.Log.{recording}
use smoker_firmware.History.Eviction.Erased.{IsEvicted, complete_pending_eviction-IsEvicted}
use smoker_firmware.History.Page.{
  page_header_bytes, crc32, is_erased, write_record, new_observation,
}
use smoker_firmware.History.Page.Scan.{
  take-append, drop-append, drop-add, IsRecord, total_size, records_with,
}
use smoker_firmware.History.Page.Append.{IsFlash, IsFree, IsAppended, write_record-ReadsAs}
use smoker_firmware.App.Snapshot.{snapshot_view}
use smoker_firmware.History.Mailbox.{
  ObservationMailbox, new_observation_mailbox, observe, try_pop_observation,
}
use smoker_firmware.History.Mailbox.Sessions.{InSessions}
use smoker_firmware.History.Mailbox.Tracked
use smoker_firmware.History.Mailbox.Tracked.{snapshot_view-IsView}
use smoker_firmware.History.Mailbox.Order.{waiting_observations, Reach-delivers}
use smoker_firmware.Tests.Demo.{celsius_50, celsius_100, running, stopping}

-- A probe, an alarm, both temperatures, a time and a fault.
abbrev sample_observation : Observation
sample_observation = record new_observation {
  history_id = 3;
  sequence = 1;
  application_session_id = 7;
  session_status = SessionStatus.fault;
  stop_reason = StopReason.fault;
  session_elapsed = pos 61000;
  unix_utc_seconds = some (pos 1700000000);
  chamber_temperature = some celsius_50;
  chamber_target = some celsius_100;
  heater_demand = record { percent = hundred };
  timer = record { started = true; completed = false; started_at = none; elapsed = pos 900 };
  probes =
      record {
        id = 1;
        role = ProbeRole.meat;
        current_temperature = some celsius_50;
        target_temperature = none;
        enabled = true;
        alarm_enabled = true;
      }
      ∷ [];
  alarms =
      record { id = 2; code = AlarmCode.probe_disconnected; probe_id = some 1; acknowledged = true }
      ∷ [];
  fault = some FaultCode.chamber_sensor_invalid;
}

sample-IsStorable : IsStorable sample_observation
unfolding from_percent Float32.is_finite Float32.lt Float32.is_nan Float32.rank
sample-IsStorable = record {
  session_id = omega arith;
  elapsed = (omega arith, omega arith);
  utc = (omega arith, omega arith);
  chamber = refl;
  target = refl;
  demand = refl;
  timer_elapsed = (omega arith, omega arith);
  few_probes = omega arith;
  few_alarms = omega arith;
  probes = (record { id = omega arith; current_temperature = refl; target_temperature = tt }, tt);
  alarms = (record { id = omega arith; probe_id = omega arith }, tt);
}

decode_observation-encode_observation_example :
    decode_observation (encode_observation sample_observation) new_observation
    ≡ some (stored new_observation sample_observation)
decode_observation-encode_observation_example =
    decode_observation-encode_observation new_observation sample_observation sample-IsStorable

-- The checksum of "123456789" in ASCII is the check value of CRC-32.
crc32_of_the_digits :
    crc32 (0x31 ∷ 0x32 ∷ 0x33 ∷ 0x34 ∷ 0x35 ∷ 0x36 ∷ 0x37 ∷ 0x38 ∷ 0x39 ∷ []) ≡ 0xcbf43926
unfolding crc32
crc32_of_the_digits = refl

length_of_the_sample : length (encode_observation sample_observation) ≡ 70
unfolding encode_observation
length_of_the_sample = refl

sample-IsRecord : IsRecord sample_observation
unfolding encode_observation
sample-IsRecord = record {
  storable = sample-IsStorable;
  sequence = omega arith;
  history_id = omega arith;
  small = omega arith;
}

abbrev head : List ℕ
head = replicate page_header_bytes 0

-- The place of a second record, which is erased.
abbrev front : List ℕ
front = replicate 36 0xff

abbrev marker : List ℕ
marker = replicate 4 0xff

abbrev old : List ℕ
old = replicate 70 0xff

abbrev rest : List ℕ
rest = replicate 100 0xff

sample-IsFree : IsFree sample_observation front marker old rest
unfolding encode_observation
sample-IsFree = record {
  front_size = refl;
  marker_size = refl;
  old_size = refl;
  front_free = refl;
  marker_free = refl;
  old_free = refl;
  rest_free = refl;
}

-- A flash that refuses to write to bytes that are not erased.
abbrev strict_write : ℕ → List ℕ → List ℕ → Bool × List ℕ
strict_write offset source page =
    if is_erased (take (length source) (drop offset page))
    then (true, take offset page ++ (source ++ drop (offset + length source) page))
    else (false, page)

strict_write-IsFlash : IsFlash strict_write
strict_write-IsFlash pre old post source free same =
    let page = pre ++ (old ++ post) in
    let behind : drop (length pre) page ≡ old ++ post = drop-append pre (old ++ post) in
    let there : take (length source) (drop (length pre) page) ≡ old =
      ap (take (length source)) behind
      ∙ ap (λ n. take n (old ++ post)) same
      ∙ take-append old post in
    inl (
      ap
        (λ b.
          if b
          then (true, take (length pre) page ++ (source ++ drop (length pre + length source) page))
          else (false, page))
        (ap is_erased there ∙ free)
      ∙ ap (λ (p : List ℕ). (true, p ++ (source ++ drop (length pre + length source) page)))
          (take-append pre (old ++ post))
      ∙ ap (λ (d : List ℕ). (true, pre ++ (source ++ d)))
          (drop-add (length pre) (length source) page
            ∙ ap (drop (length source)) behind
            ∙ ap (λ n. drop n (old ++ post)) same
            ∙ drop-append old post))

write_record-ReadsAs_example :
    IsAppended strict_write (sample_observation ∷ []) sample_observation (
      write_record strict_write sample_observation
        (page_header_bytes + total_size (sample_observation ∷ []))
        (head ++ records_with (sample_observation ∷ []) (front ++ (marker ++ (old ++ rest)))))
write_record-ReadsAs_example =
    write_record-ReadsAs strict_write strict_write-IsFlash head (sample_observation ∷ [])
      sample_observation front marker old rest refl (sample-IsRecord, tt) sample-IsRecord
      sample-IsFree

abbrev start : Observation
start = record sample_observation { kind = ObservationKind.start }

-- The first write fails, all others succeed.
abbrev slow_writer : ℕ → Observation → WriteAttempt × ℕ
slow_writer n o = (record { written = ltb 0 n; storage_state = StorageState.degraded }, n + 1)

abbrev no_clock : ℕ → Option ℤ
no_clock n = none

abbrev after_failure : HistoryTask (ℕ × List Observation)
after_failure =
    history_round (Order.writer slow_writer no_clock) (Order.clock slow_writer no_clock)
      (admit sample_observation (admit start (new_task (0, []))))

after_failure-terminal : after_failure.policy.terminal ≡ false
unfolding history_round admit
after_failure-terminal = refl

Reach-ledger_example : ledger after_failure ≡ lifecycles after_failure.admitted
Reach-ledger_example =
    Reach-ledger slow_writer no_clock
      (Order.Reach.working
        (Order.Reach.admitting sample_observation (Order.Reach.admitting start Order.Reach.here)))
      after_failure-terminal

-- The Start waits for its second attempt while an ordinary observation stays behind it.
the_start_waits : after_failure.policy.pending_lifecycle ≡ some start
unfolding history_round admit
the_start_waits = refl

-- The next round writes it.
the_start_is_written :
    (history_round
      (Order.writer slow_writer no_clock)
      (Order.clock slow_writer no_clock)
      after_failure).state.1
    ≡ start ∷ []
unfolding history_round admit
the_start_is_written = refl

abbrev good_writer : ℕ → Observation → WriteAttempt × ℕ
good_writer n o = (record { written = true; storage_state = StorageState.ready }, n)

abbrev two_admitted : HistoryTask ℕ
two_admitted = admit sample_observation (admit start (new_task 0))

two_admitted-terminal : two_admitted.policy.terminal ≡ false
unfolding admit
two_admitted-terminal = refl

two_admitted-backlog : backlog two_admitted ≤ 2
unfolding admit
two_admitted-backlog = omega arith

history_rounds_empty_example :
    ((history_rounds good_writer no_clock 2 two_admitted).policy.terminal ≡ false)
    × (backlog (history_rounds good_writer no_clock 2 two_admitted) ≡ 0)
history_rounds_empty_example =
    history_rounds_empty good_writer no_clock (λ n o. refl) 2 two_admitted two_admitted-terminal
      two_admitted-backlog

-- The mailbox sees the application run, then take a stop; the Start has been taken out.
abbrev after_run : ObservationMailbox
after_run =
    observe (snapshot_view stopping) none
      (try_pop_observation (observe (snapshot_view running) none new_observation_mailbox)).1

Reach-delivers_example :
    (after_run.delivered ++ waiting_observations after_run ≡ map some after_run.admitted)
    × InSessions none after_run.admitted
Reach-delivers_example = Reach-delivers (
    Tracked.Reach.observing (snapshot_view stopping) none (snapshot_view-IsView stopping) (
      Tracked.Reach.popping (
        Tracked.Reach.observing (snapshot_view running) none (snapshot_view-IsView running)
          Tracked.Reach.created)))

abbrev page_of : ℕ → Bool → PageInfo
page_of id marked = record {
  generation = 1;
  history_id = id;
  page_index = 0;
  used = 40;
  valid = true;
  eviction_marker = marked;
  eviction_marker_writable = true;
}

-- Session 3 has three pages, the second of them marked; the erase of the last one fails.
abbrev pages : List PageInfo
pages = page_of 3 false ∷ page_of 3 true ∷ page_of 4 false ∷ page_of 3 false ∷ []

abbrev worn_flash : ℕ → ℕ → Bool × ℕ
worn_flash index n = (ltb index 3, n + 1)

session_3_marked : session_is_pending_eviction 3 pages ≡ true
unfolding session_is_pending_eviction any_of
session_3_marked = refl

complete_pending_eviction-IsEvicted_example :
    IsEvicted 3 false pages (complete_pending_eviction (recording worn_flash) 3 false pages (0, []))
complete_pending_eviction-IsEvicted_example =
    complete_pending_eviction-IsEvicted worn_flash 3 false pages 0 session_3_marked

-- Of the two erases that are tried the first one is done, and the second one fails.
one_erase_done :
    (complete_pending_eviction (recording worn_flash) 3 false pages (0, [])).2.1 ≡ 0 ∷ []
unfolding complete_pending_eviction erase_others
one_erase_done = refl

two_erases_tried : (complete_pending_eviction worn_flash 3 false pages 0).2 ≡ 2
unfolding complete_pending_eviction erase_others
two_erases_tried = refl
