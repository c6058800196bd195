-- ===== src/History/Codec.antt =====
-- components/smoker_platform/src/history_support.cpp: `encode_observation` and `decode_observation`.
pub mod Items
pub mod RoundTrip
use smoker_firmware.Common.{
  ℕ, zero, suc, ◌+◌, ◌*◌, ◌/◌, ◌%◌, ◌^◌, List, [], ◌∷◌, ◌++◌, Bool, true, false, Option, none, some,
  if◌then◌else◌, ◌==◌, leb, has_value, length,
}
use smoker_firmware.Common.Int.{ℤ, pos, leb_ℤ}
use smoker_firmware.Common.Float32.{Float32, zero_float}
use smoker_firmware.Core.Domain.{
  Temperature, from_celsius, HeaterDemand, from_percent, ProbeRole, SessionStatus, StopReason,
  FaultCode, AlarmCode, TimerRuntimeState,
}
use smoker_firmware.History.{HistoryProbe, HistoryAlarm, Observation}
use smoker_firmware.History.Bytes.{
  Bytes, Reader, put, put_signed, put_float, ◌>>=◌, ◌>>◌, pure, guard, lift, take_uint, take_signed,
  take_float,
}
use smoker_firmware.History.Numbers.{
  alarm_number, alarm_of, celsius_or_zero, fault_number, fault_of, flag, has_flag, reason_number,
  reason_of, role_number, role_of, status_number, status_of, temperature_if, value_or,
}

-- The numbers in front of the lists.
pub record Fields : Type 0 where
  pub status : ℕ
  pub stop_reason : ℕ
  pub session_id : ℕ
  pub elapsed : ℤ
  pub flags : ℕ
  pub utc : ℤ
  pub chamber : Float32
  pub target : Float32
  pub demand : Float32
  pub timer_elapsed : ℤ
  pub fault : ℕ
  pub probe_count : ℕ
  pub alarm_count : ℕ

abbrev pub fields_of : Observation → Fields
fields_of o = record {
  status = status_number o.session_status;
  stop_reason = reason_number o.stop_reason;
  session_id = o.application_session_id;
  elapsed = o.session_elapsed;
  flags =
      flag (has_value o.unix_utc_seconds) 1
      + flag (has_value o.chamber_temperature) 2
      + flag (has_value o.chamber_target) 4
      + flag o.timer.started 8
      + flag o.timer.completed 16
      + flag (has_value o.fault) 32;
  utc = value_or (pos 0) o.unix_utc_seconds;
  chamber = celsius_or_zero o.chamber_temperature;
  target = celsius_or_zero o.chamber_target;
  demand = o.heater_demand.percent;
  timer_elapsed = o.timer.elapsed;
  fault = fault_number (value_or FaultCode.configuration_invalid o.fault);
  probe_count = length o.probes % 2 ^ 16;
  alarm_count = length o.alarms % 2 ^ 16;
}

unfoldable pub put_fields : Fields → Bytes
unfolding put put_signed put_float
put_fields f =
    put 2 1
    ++ (put 1 f.status
        ++ (put 1 f.stop_reason
            ++ (put 4 f.session_id
                ++ (put_signed f.elapsed
                    ++ (put 1 f.flags
                        ++ (put_signed f.utc
                            ++ (put_float f.chamber
                                ++ (put_float f.target
                                    ++ (put_float f.demand
                                        ++ (put_signed f.timer_elapsed
                                            ++ (put 1 f.fault
                                                ++ (put 2 f.probe_count
                                                    ++ put 2 f.alarm_count))))))))))))

unfoldable pub put_probe : HistoryProbe → Bytes
unfolding put put_signed put_float
put_probe p =
    put 1 p.id
    ++ (put 1 (role_number p.role)
        ++ (put 1 (
              flag p.enabled 1
              + flag p.alarm_enabled 2
              + flag (has_value p.current_temperature) 4
              + flag (has_value p.target_temperature) 8)
            ++ (put 1 0
                ++ (put_float (celsius_or_zero p.current_temperature)
                    ++ put_float (celsius_or_zero p.target_temperature)))))

unfoldable pub put_alarm : HistoryAlarm → Bytes
unfolding put put_signed put_float
put_alarm a =
    put 4 a.id
    ++ (put 1 (alarm_number a.code)
        ++ (put 1 (flag a.acknowledged 1 + flag (has_value a.probe_id) 2)
            ++ (put 1 (value_or 0 a.probe_id) ++ put 1 0)))

-- One item after the other.
abbrev pub put_all : {A : Type 0} → (A → Bytes) → List A → Bytes
put_all f [] = []
put_all f (x ∷ xs) = f x ++ put_all f xs

unfoldable pub encode_observation : Observation → Bytes
unfolding put_fields put_probe put_alarm
encode_observation o =
    put_fields (fields_of o) ++ (put_all put_probe o.probes ++ put_all put_alarm o.alarms)

unfoldable pub take_fields : Reader Fields
unfolding ◌>>=◌ ◌>>◌ guard pure lift take_uint take_signed take_float
take_fields = do
  version ← take_uint 2
  guard (version == 1)
  status ← take_uint 1
  guard (leb status 3)
  stop_reason ← take_uint 1
  guard (leb stop_reason 4)
  session_id ← take_uint 4
  elapsed ← take_signed
  guard (leb_ℤ (pos 0) elapsed)
  flags ← take_uint 1
  utc ← take_signed
  chamber ← take_float
  target ← take_float
  demand ← take_float
  timer_elapsed ← take_signed
  guard (leb_ℤ (pos 0) timer_elapsed)
  fault ← take_uint 1
  probe_count ← take_uint 2
  alarm_count ← take_uint 2
  pure (record {
    status = status;
    stop_reason = stop_reason;
    session_id = session_id;
    elapsed = elapsed;
    flags = flags;
    utc = utc;
    chamber = chamber;
    target = target;
    demand = demand;
    timer_elapsed = timer_elapsed;
    fault = fault;
    probe_count = probe_count;
    alarm_count = alarm_count;
  })

unfoldable pub take_probe : Reader HistoryProbe
unfolding ◌>>=◌ ◌>>◌ guard pure lift take_uint take_signed take_float
take_probe = do
  id ← take_uint 1
  role ← take_uint 1
  guard (leb role 2)
  flags ← take_uint 1
  reserved ← take_uint 1
  current ← take_float
  target ← take_float
  current_temperature ← lift (temperature_if (has_flag 4 flags) current)
  target_temperature ← lift (temperature_if (has_flag 8 flags) target)
  pure (record {
    id = id;
    role = role_of role;
    current_temperature = current_temperature;
    target_temperature = target_temperature;
    enabled = has_flag 1 flags;
    alarm_enabled = has_flag 2 flags;
  })

unfoldable pub take_alarm : Reader HistoryAlarm
unfolding ◌>>=◌ ◌>>◌ guard pure lift take_uint take_signed take_float
take_alarm = do
  id ← take_uint 4
  code ← take_uint 1
  guard (leb code 2)
  flags ← take_uint 1
  probe_id ← take_uint 1
  reserved ← take_uint 1
  pure (record {
    id = id;
    code = alarm_of code;
    probe_id = if has_flag 2 flags then some probe_id else none;
    acknowledged = has_flag 1 flags;
  })

unfoldable pub take_all : {A : Type 0} → Reader A → ℕ → Reader (List A)
unfolding ◌>>=◌ pure
take_all m zero = pure []
take_all m (suc n) = do x ← m; xs ← take_all m n; pure (x ∷ xs)

abbrev pub fault_if : Bool → ℕ → Option (Option FaultCode)
fault_if true n = if leb n 3 then some (some (fault_of n)) else none
fault_if false n = some none

-- What the fields set in the result; the lists are still empty.
unfoldable pub from_fields : Fields → Observation → Option Observation
from_fields f o = elim (from_percent f.demand) [
  | none ↦ none
  | some demand ↦ elim (temperature_if (has_flag 2 f.flags) f.chamber) [
    | none ↦ none
    | some chamber ↦ elim (temperature_if (has_flag 4 f.flags) f.target) [
      | none ↦ none
      | some target ↦ elim (fault_if (has_flag 32 f.flags) f.fault) [
        | none ↦ none
        | some fault ↦ some (record o {
          application_session_id = f.session_id;
          session_status = status_of f.status;
          stop_reason = reason_of f.stop_reason;
          session_elapsed = f.elapsed;
          unix_utc_seconds = if has_flag 1 f.flags then some f.utc else none;
          chamber_temperature = chamber;
          chamber_target = target;
          heater_demand = demand;
          timer = record {
            started = has_flag 8 f.flags;
            completed = has_flag 16 f.flags;
            started_at = none;
            elapsed = f.timer_elapsed;
          };
          probes = [];
          alarms = [];
          fault = fault;
        })
      ]
    ]
  ]
]

-- `none` where the source returns false; the result is then not used.
unfoldable pub take_observation : Observation → Reader Observation
unfolding ◌>>=◌ ◌>>◌ guard pure lift take_fields take_probe take_alarm take_all from_fields
take_observation o = do
  f ← take_fields
  guard (leb f.probe_count 256)
  guard (leb f.alarm_count 256)
  r ← lift (from_fields f o)
  probes ← take_all take_probe f.probe_count
  alarms ← take_all take_alarm f.alarm_count
  pure (record r { probes = probes; alarms = alarms })

unfoldable pub decode_observation : Bytes → Observation → Option Observation
unfolding take_observation
decode_observation bytes o = elim (take_observation o bytes) [
  | none ↦ none
  | some (r, []) ↦ some r
  | some (r, _) ↦ none
]
