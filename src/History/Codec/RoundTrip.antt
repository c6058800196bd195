-- ===== src/History/Codec/RoundTrip.antt =====
-- components/smoker_platform/src/history_support.cpp: decoding gives back what was encoded.
use smoker_firmware.Common.{
  ◌%◌, ◌^◌, ◌≤◌, ◌<◌, ◌≡◌, refl, sym, ap, subst, ◌∙◌, List, [], All, Bool, true, Option, none, some,
  arith, if◌then◌else◌, has_value, length,
}
use mathlib.Core.List.{append-nil}
use smoker_firmware.Common.Int.{ℤ, pos, leb_ℤ, ◌≤ℤ◌, ◌<ℤ◌}
use smoker_firmware.Common.Float32
use smoker_firmware.Common.Float32.{Float32, zero_float}
use smoker_firmware.Core.Domain.{
  Temperature, HeaterDemand, from_percent, SessionStatus, StopReason, FaultCode,
}
use smoker_firmware.History.{Observation}
use smoker_firmware.History.Bytes.{
  Bytes, Reader, IsRead, IsInt64, bind-IsRead, bind_last-IsRead, guard-IsRead, lift-IsRead,
  pure-IsRead,
}
use smoker_firmware.History.Codec.{
  fault_if, Fields, fields_of, put_probe, put_alarm, put_all, encode_observation, take_probe,
  take_alarm, take_all, from_fields, take_observation, decode_observation,
}
use smoker_firmware.History.Numbers.{
  status_number, status_of, reason_number, reason_of, fault_number, has_flag, value_or,
  temperature_if,
}
use smoker_firmware.History.Codec.Items.{
  IsInRange, put_fields-IsRead, IsCelsius, temperature_read, celsius_or_zero-lt, IsProbe, IsAlarm,
  flag-le, six_flags_low, six_flags_high, some_if, put_probe-IsRead, put_alarm-IsRead,
  put_all-IsRead,
}

-- A duration that a timer or a session can have.
abbrev pub IsDuration : ℤ → Type 0
IsDuration z = (pos 0 ≤ℤ z) × (z <ℤ pos (2 ^ 63))

-- An observation as the application makes them: its numbers have their C++ types, its temperatures
-- and its demand come from the checked constructors, and the reader's limits on the lists hold.
pub record IsStorable (o : Observation) : Type 0 where
  pub session_id : o.application_session_id < 2 ^ 32
  pub elapsed : IsDuration o.session_elapsed
  pub utc : IsInt64 (value_or (pos 0) o.unix_utc_seconds)
  pub chamber : IsCelsius o.chamber_temperature
  pub target : IsCelsius o.chamber_target
  pub demand : from_percent o.heater_demand.percent ≡ some o.heater_demand
  pub timer_elapsed : IsDuration o.timer.elapsed
  pub few_probes : length o.probes ≤ 256
  pub few_alarms : length o.alarms ≤ 256
  pub probes : All IsProbe o.probes
  pub alarms : All IsAlarm o.alarms

status_of-status_number : (x : SessionStatus) → status_of (status_number x) ≡ x
status_of-status_number SessionStatus.idle = refl
status_of-status_number SessionStatus.running = refl
status_of-status_number SessionStatus.stopped = refl
status_of-status_number SessionStatus.fault = refl

status-le : (x : SessionStatus) → status_number x ≤ 3
status-le SessionStatus.idle = omega arith
status-le SessionStatus.running = omega arith
status-le SessionStatus.stopped = omega arith
status-le SessionStatus.fault = omega arith

reason_of-reason_number : (x : StopReason) → reason_of (reason_number x) ≡ x
reason_of-reason_number StopReason.not_stopped = refl
reason_of-reason_number StopReason.user = refl
reason_of-reason_number StopReason.timer_completed = refl
reason_of-reason_number StopReason.fault = refl
reason_of-reason_number StopReason.recovery_not_allowed = refl

reason-le : (x : StopReason) → reason_number x ≤ 4
reason-le StopReason.not_stopped = omega arith
reason-le StopReason.user = omega arith
reason-le StopReason.timer_completed = omega arith
reason-le StopReason.fault = omega arith
reason-le StopReason.recovery_not_allowed = omega arith

fault-le : (x : FaultCode) → fault_number x ≤ 3
fault-le FaultCode.chamber_sensor_invalid = omega arith
fault-le FaultCode.chamber_over_temperature = omega arith
fault-le FaultCode.control_loop_failure = omega arith
fault-le FaultCode.configuration_invalid = omega arith

fault_if-fault_number :
    (o : Option FaultCode)
    → fault_if (has_value o) (fault_number (value_or FaultCode.configuration_invalid o)) ≡ some o
fault_if-fault_number none = refl
fault_if-fault_number (some FaultCode.chamber_sensor_invalid) = refl
fault_if-fault_number (some FaultCode.chamber_over_temperature) = refl
fault_if-fault_number (some FaultCode.control_loop_failure) = refl
fault_if-fault_number (some FaultCode.configuration_invalid) = refl

fault_read :
    (o : Option FaultCode) {b : Bool}
    → b ≡ has_value o
    → fault_if b (fault_number (value_or FaultCode.configuration_invalid o)) ≡ some o
fault_read o e =
    ap (λ b. fault_if b (fault_number (value_or FaultCode.configuration_invalid o))) e
    ∙ fault_if-fault_number o

demand-lt : (d : HeaterDemand) → from_percent d.percent ≡ some d → d.percent.magnitude < 2 ^ 31
unfolding from_percent Float32.is_finite
demand-lt d h = ground arith

duration_sign : (z : ℤ) → IsDuration z → leb_ℤ (pos 0) z ≡ true
duration_sign z h = ground (arith, h)

duration-IsInt64 : (z : ℤ) → IsDuration z → IsInt64 z
duration-IsInt64 z h = omega (arith, h)

fields_of-IsInRange : (o : Observation) → IsStorable o → IsInRange (fields_of o)
fields_of-IsInRange o v = record {
  status = status-le o.session_status;
  stop_reason = reason-le o.stop_reason;
  session_id = v.session_id;
  elapsed = duration-IsInt64 o.session_elapsed v.elapsed;
  elapsed_sign = duration_sign o.session_elapsed v.elapsed;
  flags = omega (arith, flag-le);
  utc = v.utc;
  chamber = celsius_or_zero-lt o.chamber_temperature v.chamber;
  target = celsius_or_zero-lt o.chamber_target v.target;
  demand = demand-lt o.heater_demand v.demand;
  timer_elapsed = duration-IsInt64 o.timer.elapsed v.timer_elapsed;
  timer_elapsed_sign = duration_sign o.timer.elapsed v.timer_elapsed;
  fault = omega (arith, fault-le (value_or FaultCode.configuration_invalid o.fault));
  probe_count = omega arith;
  alarm_count = omega arith;
}

-- What the fields of `o` set in the result, with empty lists; the kind, the history id and the
-- sequence are not in the bytes, and the start of the timer is not kept.
abbrev pub stored : Observation → Observation → Observation
stored prior o = record o {
  kind = prior.kind;
  history_id = prior.history_id;
  sequence = prior.sequence;
  timer = record (o.timer) { started_at = none };
}

from_fields-some :
    (f : Fields) (prior : Observation) (demand : HeaterDemand) (chamber target : Option Temperature)
    (fault : Option FaultCode)
    → from_percent f.demand ≡ some demand
    → temperature_if (has_flag 2 f.flags) f.chamber ≡ some chamber
    → temperature_if (has_flag 4 f.flags) f.target ≡ some target
    → fault_if (has_flag 32 f.flags) f.fault ≡ some fault
    → from_fields f prior
      ≡ some (record prior {
        application_session_id = f.session_id;
        session_status = status_of f.status;
        stop_reason = reason_of f.stop_reason;
        session_elapsed = f.elapsed;
        unix_utc_seconds = if has_flag 1 f.flags then some f.utc else none;
        chamber_temperature = chamber;
        chamber_target = target;
        heater_demand = demand;
        timer = record {
          started = has_flag 8 f.flags;
          completed = has_flag 16 f.flags;
          started_at = none;
          elapsed = f.timer_elapsed;
        };
        probes = [];
        alarms = [];
        fault = fault;
      })
unfolding from_fields
from_fields-some f prior demand chamber target fault d c t e = rw (d, c, t, e, from_fields) refl

from_fields-fields_of :
    (prior o : Observation)
    → IsStorable o
    → from_fields (fields_of o) prior ≡ some (record (stored prior o) { probes = []; alarms = [] })
from_fields-fields_of prior o v =
    let low =
      six_flags_low (has_value o.unix_utc_seconds) (has_value o.chamber_temperature)
        (has_value o.chamber_target) o.timer.started o.timer.completed (has_value o.fault) in
    let high =
      six_flags_high (has_value o.unix_utc_seconds) (has_value o.chamber_temperature)
        (has_value o.chamber_target) o.timer.started o.timer.completed (has_value o.fault) in
    from_fields-some (fields_of o) prior o.heater_demand o.chamber_temperature o.chamber_target
      o.fault v.demand (temperature_read o.chamber_temperature v.chamber low.1.0)
      (temperature_read o.chamber_target v.target low.1.1) (fault_read o.fault high.1.1)
    ∙ (λ i. some (record (stored prior o) {
      session_status = status_of-status_number o.session_status i;
      stop_reason = reason_of-reason_number o.stop_reason i;
      unix_utc_seconds = if low.0 i then some (value_or (pos 0) o.unix_utc_seconds) else none;
      timer = record (o.timer) { started = high.0 i; completed = high.1.0 i; started_at = none };
      probes = [];
      alarms = [];
    }))
    ∙ (λ i. some (record (stored prior o) {
      unix_utc_seconds = some_if (pos 0) o.unix_utc_seconds i;
      probes = [];
      alarms = [];
    }))

all-IsRead :
    {A : Type 0} (m : Reader A) (f : A → Bytes) (P : A → Type 0)
    → ((a : A) → P a → IsRead m (f a) a)
    → (xs : List A) → All P xs
    → length xs ≤ 256
    → IsRead (take_all m (length xs % 2 ^ 16)) (put_all f xs) xs
all-IsRead m f P h xs v few =
    subst (λ n. IsRead (take_all m n) (put_all f xs) xs) {x = length xs} (omega (arith, few))
      (put_all-IsRead m f P h xs v)

observation-IsRead :
    (prior o : Observation)
    → IsStorable o
    → IsRead (take_observation prior) (encode_observation o) (stored prior o)
unfolding take_observation encode_observation
observation-IsRead prior o v =
    bind-IsRead _ (put_fields-IsRead (fields_of o) (fields_of-IsInRange o v)) (
      guard-IsRead (ground (arith, v.few_probes)) (
        guard-IsRead (ground (arith, v.few_alarms)) (
          lift-IsRead _ (from_fields-fields_of prior o v) (
            bind-IsRead _
              (all-IsRead take_probe put_probe IsProbe put_probe-IsRead o.probes v.probes
                v.few_probes)
              (bind_last-IsRead _
                (all-IsRead take_alarm put_alarm IsAlarm put_alarm-IsRead o.alarms v.alarms
                  v.few_alarms)
                (pure-IsRead refl))))))

-- An observation that the application makes is decoded from its bytes as it was: every field but
-- the kind, the history id and the sequence, which are in the record's header and stay as they were
-- in the result, and the start of the timer, which is not kept.
pub decode_observation-encode_observation :
    (prior o : Observation)
    → IsStorable o
    → decode_observation (encode_observation o) prior ≡ some (stored prior o)
unfolding decode_observation
decode_observation-encode_observation prior o v =
    let read : take_observation prior (encode_observation o) ≡ some (stored prior o, []) =
      ap (take_observation prior) (sym (append-nil (encode_observation o)))
      ∙ (observation-IsRead prior o v).reads [] in
    rw (read, decode_observation) refl
