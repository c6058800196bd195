-- ===== src/Exchange/Steps.antt =====
-- components/smoker_app/src/snapshot_exchange.cpp: one writer and any number of readers, interleaved
-- at each access of a shared index, count or slot. The accesses are taken as sequentially consistent:
-- each one sees all that stand before it in the sequence. The source asks for less: the release store
-- of `published_index_` and the acquire load of `readers_` in `publish`, and `fetch_add` and the second
-- load in `acquire`, are accesses of different atomics, and under the C++ memory model a load may be
-- served before the store in front of it is seen by the other side. What follows from these steps
-- holds of an execution in which that reordering does not happen.
use smoker_firmware.Common.{
  ℕ, ◌+◌, ◌^◌, ◌<◌, ◌≡◌, ◌≢◌, ◌⊎◌, List, [], ◌∷◌, ◌++◌, true, false, length, replicate, put,
}
use smoker_firmware.App.Commands.{command_result_capacity}
use smoker_firmware.App.Snapshot.{SnapshotView}
use smoker_firmware.Exchange.{
  Slot, Exchange, new_exchange, no_slot, slot_count, fits, drop_publish, write_slot, enter, leave,
}

-- Where `publish` stands: outside; in the loop over the slots, with the published index that it
-- loaded and the index of the round; in the copy to a slot; after the copy.
pub data Writer : Type 0 where
  resting : Writer
  scanning : SnapshotView → ℕ → ℕ → Writer
  writing : SnapshotView → ℕ → Writer
  written : SnapshotView → ℕ → Writer

-- Where a reader stands: outside `acquire` and without a lease; after the first load of the
-- published index; after the count went up; with a lease; before the count goes down again.
pub data Reader : Type 0 where
  resting : Reader
  loaded : ℕ → Reader
  counted : ℕ → Reader
  leased : ℕ → Reader
  leaving : ℕ → Reader

-- The exchange, both sides, and the snapshots published so far, newest first.
pub record System : Type 0 where
  pub exchange : Exchange
  pub writer : Writer
  pub readers : List Reader
  pub published : List SnapshotView

abbrev pub start : Slot → ℕ → System
start blank n = record {
  exchange = new_exchange blank;
  writer = Writer.resting;
  readers = replicate n Reader.resting;
  published = [];
}

-- The three arrays of a slot keep their lengths.
abbrev pub IsSized : ℕ → ℕ → Slot → Type 0
IsSized p a x =
    (length x.probes ≡ p)
    × ((length x.alarms ≡ a) × (length x.command_results ≡ command_result_capacity))

-- One access of a reader, with the counts after it; a reader changes nothing else.
pub data ReaderStep (e : Exchange) : Reader → Reader → (ℕ → ℕ) → Type 0 where
  load : ReaderStep e Reader.resting (Reader.loaded e.published_index) e.readers
  nothing_yet : ReaderStep e (Reader.loaded no_slot) Reader.resting e.readers
  count :
      (i : ℕ) → i ≢ no_slot → ReaderStep e (Reader.loaded i) (Reader.counted i) (enter i e).readers
  confirm :
      (i : ℕ) → e.published_index ≡ i → ReaderStep e (Reader.counted i) (Reader.leased i) e.readers
  retry :
      (i : ℕ) → e.published_index ≢ i → ReaderStep e (Reader.counted i) (Reader.leaving i) e.readers
  back_off : (i : ℕ) → ReaderStep e (Reader.leaving i) Reader.resting (leave i e).readers
  release : (i : ℕ) → ReaderStep e (Reader.leased i) Reader.resting (leave i e).readers

pub data Step (s : System) : System → Type 0 where
  read :
      {r q : Reader} {counts : ℕ → ℕ} (before after : List Reader)
      → s.readers ≡ before ++ (r ∷ after)
      → ReaderStep s.exchange r q counts
      → Step s (record s {
        exchange = record (s.exchange) { readers = counts };
        readers = before ++ (q ∷ after);
      })
  too_large :
      (v : SnapshotView)
      → s.writer ≡ Writer.resting
      → fits v s.exchange ≡ false
      → Step s (record s { writer = Writer.resting; exchange = drop_publish s.exchange })
  begin :
      (v : SnapshotView)
      → s.writer ≡ Writer.resting
      → fits v s.exchange ≡ true
      → Step s (record s { writer = Writer.scanning v s.exchange.published_index 0 })
  skip :
      (v : SnapshotView) (current i : ℕ)
      → s.writer ≡ Writer.scanning v current i
      → i < slot_count
      → (i ≡ current) ⊎ (s.exchange.readers i ≢ 0)
      → Step s (record s { writer = Writer.scanning v current (i + 1) })
  choose :
      (v : SnapshotView) (current i : ℕ)
      → s.writer ≡ Writer.scanning v current i
      → i < slot_count
      → i ≢ current
      → s.exchange.readers i ≡ 0
      → Step s (record s { writer = Writer.writing v i })
  all_busy :
      (v : SnapshotView) (current : ℕ)
      → s.writer ≡ Writer.scanning v current slot_count
      → Step s (record s { writer = Writer.resting; exchange = drop_publish s.exchange })
  -- In the middle of the copy the slot may hold anything.
  write_part :
      (v : SnapshotView) (d : ℕ) (x : Slot)
      → s.writer ≡ Writer.writing v d
      → IsSized (length (s.exchange.slots d).probes) (length (s.exchange.slots d).alarms) x
      → Step s (record s { exchange = record (s.exchange) { slots = put d x s.exchange.slots } })
  finish_copy :
      (v : SnapshotView) (d : ℕ)
      → s.writer ≡ Writer.writing v d
      → Step s (record s {
        writer = Writer.written v d;
        exchange = record (s.exchange) {
          slots = put d (write_slot v (s.exchange.slots d)) s.exchange.slots;
        };
      })
  -- `published_index_.store`
  announce :
      (v : SnapshotView) (d : ℕ)
      → s.writer ≡ Writer.written v d
      → Step s (record s {
        writer = Writer.resting;
        exchange = record (s.exchange) { published_index = d };
        published = v ∷ s.published;
      })

-- From vectors of lengths `p` and `a`, with `n` readers.
pub data Reach (p a : ℕ) : System → Type 0 where
  here : {blank : Slot} (n : ℕ) → IsSized p a blank → n < 2 ^ 32 → Reach p a (start blank n)
  then : {s t : System} → Reach p a s → Step s t → Reach p a t
