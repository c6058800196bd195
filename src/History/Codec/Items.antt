-- ===== src/History/Codec/Items.antt =====
-- components/smoker_platform/src/history_support.cpp: the parts of an observation, read as written.
use smoker_firmware.Common.{
  ℕ, ◌+◌, ◌^◌, ◌≤◌, ◌<◌, ◌≡◌, refl, ap, ◌∙◌, List, [], ◌∷◌, All, Bool, true, Option, none, some,
  arith, if◌then◌else◌, has_value, length,
}
use smoker_firmware.Common.Int.{pos, leb_ℤ}
use smoker_firmware.Common.Float32
use smoker_firmware.Common.Float32.{Float32, zero_float}
use smoker_firmware.Core.Domain.{Temperature, from_celsius, ProbeRole, AlarmCode}
use smoker_firmware.History.{HistoryProbe, HistoryAlarm}
use smoker_firmware.History.Bytes.{
  Bytes, Reader, IsRead, IsInt64, bind-IsRead, bind_last-IsRead, guard-IsRead, lift-IsRead,
  pure-IsRead, put-IsRead, put_signed-IsRead, put_float-IsRead,
}
use smoker_firmware.History.Codec.{
  Fields, put_fields, put_probe, put_alarm, put_all, take_fields, take_probe, take_alarm, take_all,
}
use smoker_firmware.History.Numbers.{
  role_number, role_of, alarm_number, alarm_of, flag, has_flag, celsius_or_zero, value_or,
  temperature_if,
}

-- The numbers fit their bytes and pass the tests of the reader.
pub record IsInRange (f : Fields) : Type 0 where
  pub status : f.status ≤ 3
  pub stop_reason : f.stop_reason ≤ 4
  pub session_id : f.session_id < 2 ^ 32
  pub elapsed : IsInt64 f.elapsed
  pub elapsed_sign : leb_ℤ (pos 0) f.elapsed ≡ true
  pub flags : f.flags < 256
  pub utc : IsInt64 f.utc
  pub chamber : f.chamber.magnitude < 2 ^ 31
  pub target : f.target.magnitude < 2 ^ 31
  pub demand : f.demand.magnitude < 2 ^ 31
  pub timer_elapsed : IsInt64 f.timer_elapsed
  pub timer_elapsed_sign : leb_ℤ (pos 0) f.timer_elapsed ≡ true
  pub fault : f.fault < 256
  pub probe_count : f.probe_count < 2 ^ 16
  pub alarm_count : f.alarm_count < 2 ^ 16

pub put_fields-IsRead : (f : Fields) → IsInRange f → IsRead take_fields (put_fields f) f
unfolding take_fields put_fields
put_fields-IsRead f v = bind-IsRead _ (put-IsRead 2 1 (omega arith)) (
    guard-IsRead refl (
      bind-IsRead _ (put-IsRead 1 f.status (omega (arith, v.status))) (
        guard-IsRead (ground (arith, v.status)) (
          bind-IsRead _ (put-IsRead 1 f.stop_reason (omega (arith, v.stop_reason))) (
            guard-IsRead (ground (arith, v.stop_reason)) (
              bind-IsRead _ (put-IsRead 4 f.session_id (omega (arith, v.session_id))) (
                bind-IsRead _ (put_signed-IsRead f.elapsed v.elapsed) (
                  guard-IsRead v.elapsed_sign (
                    bind-IsRead _ (put-IsRead 1 f.flags (omega (arith, v.flags))) (
                      bind-IsRead _ (put_signed-IsRead f.utc v.utc) (
                        bind-IsRead _ (put_float-IsRead f.chamber v.chamber) (
                          bind-IsRead _ (put_float-IsRead f.target v.target) (
                            bind-IsRead _ (put_float-IsRead f.demand v.demand) (
                              bind-IsRead _ (put_signed-IsRead f.timer_elapsed v.timer_elapsed) (
                                guard-IsRead v.timer_elapsed_sign (
                                  bind-IsRead _ (put-IsRead 1 f.fault (omega (arith, v.fault))) (
                                    bind-IsRead _
                                      (put-IsRead 2 f.probe_count (omega (arith, v.probe_count)))
                                      (bind_last-IsRead _
                                        (put-IsRead 2 f.alarm_count (omega (arith, v.alarm_count)))
                                        (pure-IsRead refl)))))))))))))))))))

-- A temperature made by `from_celsius`, if there is one.
abbrev pub IsCelsius : Option Temperature → Type 0
IsCelsius none = Unit {0}
IsCelsius (some t) = Float32.is_finite t.celsius ≡ true

pub temperature_if-celsius_or_zero :
    (o : Option Temperature)
    → IsCelsius o
    → temperature_if (has_value o) (celsius_or_zero o) ≡ some o
unfolding from_celsius
temperature_if-celsius_or_zero none h = refl
temperature_if-celsius_or_zero (some t) h = rw (h, temperature_if) refl

pub celsius_or_zero-lt :
    (o : Option Temperature) → IsCelsius o → (celsius_or_zero o).magnitude < 2 ^ 31
unfolding Float32.is_finite
celsius_or_zero-lt none h = omega arith
celsius_or_zero-lt (some t) h = ground arith

pub record IsProbe (p : HistoryProbe) : Type 0 where
  pub id : p.id < 256
  pub current_temperature : IsCelsius p.current_temperature
  pub target_temperature : IsCelsius p.target_temperature

pub record IsAlarm (a : HistoryAlarm) : Type 0 where
  pub id : a.id < 2 ^ 32
  pub probe_id : value_or 0 a.probe_id < 256

pub role_of-role_number : (r : ProbeRole) → role_of (role_number r) ≡ r
role_of-role_number ProbeRole.meat = refl
role_of-role_number ProbeRole.ambient_monitor = refl
role_of-role_number ProbeRole.unassigned = refl

role-le : (r : ProbeRole) → role_number r ≤ 2
role-le ProbeRole.meat = omega arith
role-le ProbeRole.ambient_monitor = omega arith
role-le ProbeRole.unassigned = omega arith

alarm_of-alarm_number : (c : AlarmCode) → alarm_of (alarm_number c) ≡ c
alarm_of-alarm_number AlarmCode.probe_target_reached = refl
alarm_of-alarm_number AlarmCode.probe_disconnected = refl
alarm_of-alarm_number AlarmCode.timer_completed = refl

alarm-le : (c : AlarmCode) → alarm_number c ≤ 2
alarm-le AlarmCode.probe_target_reached = omega arith
alarm-le AlarmCode.probe_disconnected = omega arith
alarm-le AlarmCode.timer_completed = omega arith

pub flag-le : (b : Bool) (m : ℕ) → flag b m ≤ m
flag-le b m = ground arith

-- Each flag is read as it was set.
two_flags :
    (a b : Bool) → (has_flag 1 (flag a 1 + flag b 2) ≡ a) × (has_flag 2 (flag a 1 + flag b 2) ≡ b)
two_flags a b = ground arith

abbrev pub four_flags : Bool → Bool → Bool → Bool → ℕ
four_flags a b c d = flag a 1 + flag b 2 + flag c 4 + flag d 8

four_flags_read :
    (a b c d : Bool)
    → (has_flag 1 (four_flags a b c d) ≡ a)
      × ((has_flag 2 (four_flags a b c d) ≡ b)
          × ((has_flag 4 (four_flags a b c d) ≡ c) × (has_flag 8 (four_flags a b c d) ≡ d)))
four_flags_read a b c d = ground arith

abbrev pub six_flags : Bool → Bool → Bool → Bool → Bool → Bool → ℕ
six_flags a b c d e f = flag a 1 + flag b 2 + flag c 4 + flag d 8 + flag e 16 + flag f 32

pub six_flags_low :
    (a b c d e f : Bool)
    → (has_flag 1 (six_flags a b c d e f) ≡ a)
      × ((has_flag 2 (six_flags a b c d e f) ≡ b) × (has_flag 4 (six_flags a b c d e f) ≡ c))
six_flags_low a b c d e f = ground arith

pub six_flags_high :
    (a b c d e f : Bool)
    → (has_flag 8 (six_flags a b c d e f) ≡ d)
      × ((has_flag 16 (six_flags a b c d e f) ≡ e) × (has_flag 32 (six_flags a b c d e f) ≡ f))
six_flags_high a b c d e f = ground arith

pub some_if :
    {A : Type 0} (a : A) (o : Option A) → (if has_value o then some (value_or a o) else none) ≡ o
some_if a none = refl
some_if a (some b) = refl

pub temperature_read :
    (o : Option Temperature)
    → IsCelsius o
    → {b : Bool} → b ≡ has_value o
    → temperature_if b (celsius_or_zero o) ≡ some o
temperature_read o h e =
    ap (λ b. temperature_if b (celsius_or_zero o)) e ∙ temperature_if-celsius_or_zero o h

pub put_probe-IsRead : (p : HistoryProbe) → IsProbe p → IsRead take_probe (put_probe p) p
unfolding take_probe put_probe
put_probe-IsRead p v =
    let read =
      four_flags_read p.enabled p.alarm_enabled (has_value p.current_temperature)
        (has_value p.target_temperature) in
    bind-IsRead _ (put-IsRead 1 p.id (omega (arith, v.id))) (
      bind-IsRead _ (put-IsRead 1 (role_number p.role) (omega (arith, role-le p.role))) (
        guard-IsRead (ground (arith, role-le p.role)) (
          bind-IsRead _ (put-IsRead 1 _ (omega (arith, flag-le))) (
            bind-IsRead _ (put-IsRead 1 0 (omega arith)) (
              bind-IsRead _
                (put_float-IsRead _
                  (celsius_or_zero-lt p.current_temperature v.current_temperature))
                (bind_last-IsRead _
                  (put_float-IsRead _
                    (celsius_or_zero-lt p.target_temperature v.target_temperature))
                  (lift-IsRead _
                    (temperature_read p.current_temperature v.current_temperature read.1.1.0)
                    (lift-IsRead _
                      (temperature_read p.target_temperature v.target_temperature read.1.1.1)
                      (pure-IsRead (λ i. record p {
                        role = role_of-role_number p.role i;
                        enabled = read.0 i;
                        alarm_enabled = read.1.0 i;
                      }))))))))))

pub put_alarm-IsRead : (a : HistoryAlarm) → IsAlarm a → IsRead take_alarm (put_alarm a) a
unfolding take_alarm put_alarm
put_alarm-IsRead a v =
    let read = two_flags a.acknowledged (has_value a.probe_id) in
    bind-IsRead _ (put-IsRead 4 a.id (omega (arith, v.id))) (
      bind-IsRead _ (put-IsRead 1 (alarm_number a.code) (omega (arith, alarm-le a.code))) (
        guard-IsRead (ground (arith, alarm-le a.code)) (
          bind-IsRead _ (put-IsRead 1 _ (omega (arith, flag-le))) (
            bind-IsRead _ (put-IsRead 1 (value_or 0 a.probe_id) (omega (arith, v.probe_id))) (
              bind_last-IsRead _ (put-IsRead 1 0 (omega arith)) (
                pure-IsRead (
                  (λ i. record a {
                    code = alarm_of-alarm_number a.code i;
                    acknowledged = read.0 i;
                    probe_id = if read.1 i then some (value_or 0 a.probe_id) else none;
                  })
                  ∙ (λ i. record a { probe_id = some_if 0 a.probe_id i }))))))))

pub put_all-IsRead :
    {A : Type 0} (m : Reader A) (f : A → Bytes) (P : A → Type 0)
    → ((a : A) → P a → IsRead m (f a) a)
    → (xs : List A) → All P xs
    → IsRead (take_all m (length xs)) (put_all f xs) xs
unfolding take_all
put_all-IsRead m f P h [] v = pure-IsRead refl
put_all-IsRead m f P h (x ∷ xs) v =
    bind-IsRead _ (h x v.0) (bind_last-IsRead _ (put_all-IsRead m f P h xs v.1) (pure-IsRead refl))
